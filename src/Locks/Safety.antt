-- ===== src/Locks/Safety.antt =====
-- What the locks protect, in every reachable state.
use libupsf.Prelude.{
  ℕ, ◌<◌, ◌≡◌, ◌≢◌, refl, subst, ◌∙◌, true, false, some, inl, inr, ◌==◌, ==_iff, Bool-cases, arith,
}
use libupsf.Text.{Bytes}
use libupsf.Slots.{Slots, find}
use libupsf.Locks.Counting.{set, total-set, total_one, total_two, total_none}
use libupsf.Locks.Steps.{Pc, Shared, Move, System, pick, Reach, start, later, init}
use libupsf.Locks.Invariant.{
  writing, reading, serving, Knows, num, Inv, Move-writers, Move-readers, Move-exclusive, Move-find,
  Move-held, Move-known, Move-locked,
}

-- What holds of one thread after its step, and of every other thread, holds of all.
each :
    (P : ℕ → Pc → Type 0) (i : ℕ) (pc : ℕ → Pc) (p : Pc)
    → P i p
    → ((j : ℕ) → (i == j) ≡ false → P j (pc j))
    → (j : ℕ) → P j (set pc i p j)
each P i pc p own others j = elim (Bool-cases (i == j)) [
  | inl same ↦
      let own' : P i (set pc i p i) = rw ((==_iff i i).1 refl) own in
      subst (λ k. P k (set pc i p k)) ((==_iff i j).0 same) own'
  | inr other ↦ rw other (others j other)
]

Knows-same : (a b : Slots) (j : ℕ) (q : Pc) → find j a ≡ find j b → Knows b j q → Knows a j q
Knows-same a b j (Pc.wants_slot addr) e h = e ∙ h
Knows-same a b j (Pc.calling addr) e h = e ∙ h
Knows-same a b j Pc.idle e h = tt
Knows-same a b j (Pc.wants_open host port) e h = tt
Knows-same a b j (Pc.opening host port) e h = tt
Knows-same a b j Pc.wants_close e h = tt
Knows-same a b j Pc.closing e h = tt
Knows-same a b j Pc.wants_call e h = tt
Knows-same a b j Pc.looking e h = tt

Move-Inv :
    {n : ℕ} {s : Shared} {pc : ℕ → Pc}
    → Inv n s pc
    → (i : ℕ) → i < n
    → {m : Shared} {p : Pc} → Move i s (pc i) m p
    → Inv n m (set pc i p)
Move-Inv {n} {s} {pc} inv i lt {m} {p} mv = record {
  writers = omega (
    arith,
    total-set writing n i pc p lt,
    Move-writers mv,
    total_one writing n i pc lt,
    inv.writers,
  );
  readers = omega (
    arith,
    total-set reading n i pc p lt,
    Move-readers mv,
    total_one reading n i pc lt,
    inv.readers,
  );
  exclusive = Move-exclusive mv inv.exclusive;
  known =
      each (Knows m.slots) i pc p (Move-known mv (inv.known i))
        λ j other. Knows-same m.slots s.slots j (pc j) (Move-find mv j other) (inv.known j);
  locked =
      each (λ j q. m.held j ≡ serving q) i pc p (Move-locked mv (inv.locked i))
        λ j other. Move-held mv j other ∙ inv.locked j;
}

Inv-init : (n : ℕ) → Inv n init.shared init.pc
Inv-init n = record {
  writers = total_none writing n init.pc (λ i l. refl);
  readers = total_none reading n init.pc (λ i l. refl);
  exclusive = λ h. refl;
  known = λ i. tt;
  locked = λ i. refl;
}

pub Reach-Inv : {n : ℕ} {s : System} → Reach n s → Inv n s.shared s.pc
Reach-Inv {n} start = Inv-init n
Reach-Inv (later r (pick i lt mv)) = Move-Inv (Reach-Inv r) i lt mv

-- In every reachable state in which a thread is behind the lock in upsf_open or upsf_close, no
-- other thread is behind that lock too, and none is between the shared lock of a call and its end.
pub map_exclusive :
    {n : ℕ} {s : System}
    → Reach n s
    → (i j : ℕ) → i < n
    → j < n
    → i ≢ j
    → writing (s.pc i) ≡ 1
    → (writing (s.pc j) ≡ 0) × (reading (s.pc j) ≡ 0)
map_exclusive {n} {s} r i j li lj other w =
    let inv = Reach-Inv r in
    let both = total_two writing n i j s.pc li lj other in
    let inside = total_one reading n j s.pc lj in
    elim (Bool-cases s.shared.writer) [
      | inl yes_in ↦
          let one : num s.shared.writer ≡ 1 = rw yes_in refl in
          let empty = inv.exclusive yes_in in
          (omega (arith, both, inv.writers, one, w), omega (arith, inside, inv.readers, empty))
      | inr none_in ↦
          let zero_in : num s.shared.writer ≡ 0 = rw none_in refl in
          absurd (omega (arith, both, inv.writers, zero_in, w))
    ]

-- In every reachable state in which a thread is in a call of a server, the slot that it looked up
-- is still in the map, and its lock is held.
pub slot_kept :
    {n : ℕ} {s : System}
    → Reach n s
    → (i : ℕ) (addr : Bytes) → s.pc i ≡ Pc.calling addr
    → (find i s.shared.slots ≡ some addr) × (s.shared.held i ≡ true)
slot_kept {n} {s} r i addr e =
    let inv = Reach-Inv r in
    (subst (Knows s.shared.slots i) e (inv.known i), inv.locked i ∙ rw e refl)
