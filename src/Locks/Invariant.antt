-- ===== src/Locks/Invariant.antt =====
-- Who holds the locks, in every reachable state.
use libupsf.Prelude.{
  ℕ, ◌+◌, ◌≤◌, ◌≡◌, refl, ◌∙◌, Bool, true, false, some, ◌==◌, if◌then◌else◌, arith,
}
use libupsf.Slots.{Slots, find}
use libupsf.Slots.Threads.{upsf_open_lem, upsf_close_lem}
use libupsf.Locks.Counting.{total}
use libupsf.Locks.Steps.{Pc, Shared, Move}

abbrev pub writing : Pc → ℕ
writing (Pc.opening host port) = 1
writing Pc.closing = 1
writing _ = 0

abbrev pub reading : Pc → ℕ
reading Pc.looking = 1
reading (Pc.wants_slot addr) = 1
reading (Pc.calling addr) = 1
reading _ = 0

abbrev pub serving : Pc → Bool
serving (Pc.calling addr) = true
serving _ = false

-- The slot whose address the thread has looked up is still in the map.
abbrev pub Knows : Slots → ℕ → Pc → Type 0
Knows slots i (Pc.wants_slot addr) = find i slots ≡ some addr
Knows slots i (Pc.calling addr) = find i slots ≡ some addr
Knows slots i _ = Unit

abbrev pub num : Bool → ℕ
num b = if b then 1 else 0

pub record Inv (n : ℕ) (s : Shared) (pc : ℕ → Pc) : Type 0 where
  pub writers : total writing n pc ≡ num s.writer
  pub readers : total reading n pc ≡ s.readers
  pub exclusive : s.writer ≡ true → s.readers ≡ 0
  pub known : (i : ℕ) → Knows s.slots i (pc i)
  pub locked : (i : ℕ) → s.held i ≡ serving (pc i)

module _ {i : ℕ} {s : Shared} where
  pub Move-writers :
      {m : Shared} {q p : Pc}
      → Move i s q m p
      → writing q ≤ num s.writer
      → num m.writer + writing q ≡ num s.writer + writing p
  Move-writers Move.ask_open h = refl
  Move-writers Move.ask_close h = refl
  Move-writers Move.ask_call h = refl
  Move-writers (Move.lock_open free none_in) h = ground arith
  Move-writers Move.do_open h = ground arith
  Move-writers (Move.lock_close free none_in) h = ground arith
  Move-writers Move.do_close h = ground arith
  Move-writers (Move.lock_shared free) h = refl
  Move-writers (Move.no_slot e) h = refl
  Move-writers Move.exists_ends h = refl
  Move-writers (Move.has_slot e) h = refl
  Move-writers (Move.lock_slot e) h = refl
  Move-writers Move.finish h = refl

  pub Move-readers :
      {m : Shared} {q p : Pc}
      → Move i s q m p
      → reading q ≤ s.readers
      → m.readers + reading q ≡ s.readers + reading p
  Move-readers Move.ask_open h = refl
  Move-readers Move.ask_close h = refl
  Move-readers Move.ask_call h = refl
  Move-readers (Move.lock_open free none_in) h = refl
  Move-readers Move.do_open h = refl
  Move-readers (Move.lock_close free none_in) h = refl
  Move-readers Move.do_close h = refl
  Move-readers (Move.lock_shared free) h = omega arith
  Move-readers (Move.no_slot e) h = omega arith
  Move-readers Move.exists_ends h = omega arith
  Move-readers (Move.has_slot e) h = refl
  Move-readers (Move.lock_slot e) h = refl
  Move-readers Move.finish h = omega arith

  pub Move-exclusive :
      {m : Shared} {q p : Pc}
      → Move i s q m p
      → (s.writer ≡ true → s.readers ≡ 0)
      → m.writer ≡ true
      → m.readers ≡ 0
  Move-exclusive Move.ask_open h w = h w
  Move-exclusive Move.ask_close h w = h w
  Move-exclusive Move.ask_call h w = h w
  Move-exclusive (Move.lock_open free none_in) h w = none_in
  Move-exclusive Move.do_open h w = absurd (ground arith)
  Move-exclusive (Move.lock_close free none_in) h w = none_in
  Move-exclusive Move.do_close h w = absurd (ground arith)
  Move-exclusive (Move.lock_shared free) h w = absurd (ground arith)
  Move-exclusive (Move.no_slot e) h w = omega (arith, h w)
  Move-exclusive Move.exists_ends h w = omega (arith, h w)
  Move-exclusive (Move.has_slot e) h w = h w
  Move-exclusive (Move.lock_slot e) h w = h w
  Move-exclusive Move.finish h w = omega (arith, h w)

  -- A thread changes no slot but its own.
  pub Move-find :
      {m : Shared} {q p : Pc}
      → Move i s q m p
      → (j : ℕ) → (i == j) ≡ false
      → find j m.slots ≡ find j s.slots
  Move-find (Move.do_open {host} {port}) j h = (upsf_open_lem host port i j s.slots).1 ∙ rw h refl
  Move-find Move.do_close j h = (upsf_close_lem i j s.slots).1 ∙ rw h refl
  Move-find _ j h = refl

  pub Move-held :
      {m : Shared} {q p : Pc} → Move i s q m p → (j : ℕ) → (i == j) ≡ false → m.held j ≡ s.held j
  Move-held (Move.lock_slot e) j h = rw h refl
  Move-held Move.finish j h = rw h refl
  Move-held _ j h = refl

  -- What the thread itself knows, and whether it holds the lock of its slot.
  pub Move-known : {m : Shared} {q p : Pc} → Move i s q m p → Knows s.slots i q → Knows m.slots i p
  Move-known (Move.has_slot e) h = e
  Move-known (Move.lock_slot e) h = h
  Move-known Move.ask_open h = tt
  Move-known Move.ask_close h = tt
  Move-known Move.ask_call h = tt
  Move-known (Move.lock_open free none_in) h = tt
  Move-known Move.do_open h = tt
  Move-known (Move.lock_close free none_in) h = tt
  Move-known Move.do_close h = tt
  Move-known (Move.lock_shared free) h = tt
  Move-known (Move.no_slot e) h = tt
  Move-known Move.exists_ends h = tt
  Move-known Move.finish h = tt

  pub Move-locked :
      {m : Shared} {q p : Pc} → Move i s q m p → s.held i ≡ serving q → m.held i ≡ serving p
  Move-locked (Move.lock_slot e) h = ground arith
  Move-locked Move.finish h = ground arith
  Move-locked Move.ask_open h = h
  Move-locked Move.ask_close h = h
  Move-locked Move.ask_call h = h
  Move-locked (Move.lock_open free none_in) h = h
  Move-locked Move.do_open h = h
  Move-locked (Move.lock_close free none_in) h = h
  Move-locked Move.do_close h = h
  Move-locked (Move.lock_shared free) h = h
  Move-locked (Move.no_slot e) h = h
  Move-locked Move.exists_ends h = h
  Move-locked (Move.has_slot e) h = h
