-- ===== src/Locks/Progress.antt =====
-- No thread waits for ever: while a thread is in a call of the library, some thread can go on, and when
-- no new calls start, all of them return. A call of the server is taken to return.
use libupsf.Prelude.{
  ℕ, zero, suc, ◌+◌, ◌<◌, ◌≤◌, ◌≡◌, ◌≢◌, refl, sym, ◌∙◌, false, inl, inr, Bool-cases, Option-cases,
  arith,
}
use libupsf.Slots.{find}
use libupsf.Locks.Counting.{set, total, total-set, total_one, total_some, zero_or}
use libupsf.Locks.Steps.{Pc, Shared, Move, System, pick, Reach, later}
use libupsf.Locks.Invariant.{writing, reading, serving, num}
use libupsf.Locks.Safety.{Reach-Inv}

-- How many steps a thread has left in its call.
abbrev pub work : Pc → ℕ
work Pc.idle = 0
work (Pc.wants_open host port) = 2
work (Pc.opening host port) = 1
work Pc.wants_close = 2
work Pc.closing = 1
work Pc.wants_call = 4
work Pc.looking = 3
work (Pc.wants_slot addr) = 2
work (Pc.calling addr) = 1

-- A step that the thread can take in its call.
abbrev pub GoesOn : ℕ → Shared → Pc → Type 0
GoesOn i s q = (m : Shared) × (p : Pc) × Move i s q m p × (work p < work q)

writer_goes : (i : ℕ) (s : Shared) (q : Pc) → 0 < writing q → GoesOn i s q
writer_goes i s (Pc.opening host port) h = (_, _, Move.do_open, omega arith)
writer_goes i s Pc.closing h = (_, _, Move.do_close, omega arith)
writer_goes i s Pc.idle h = absurd (omega arith)
writer_goes i s (Pc.wants_open host port) h = absurd (omega arith)
writer_goes i s Pc.wants_close h = absurd (omega arith)
writer_goes i s Pc.wants_call h = absurd (omega arith)
writer_goes i s Pc.looking h = absurd (omega arith)
writer_goes i s (Pc.wants_slot addr) h = absurd (omega arith)
writer_goes i s (Pc.calling addr) h = absurd (omega arith)

reader_goes : (i : ℕ) (s : Shared) (q : Pc) → s.held i ≡ serving q → 0 < reading q → GoesOn i s q
reader_goes i s Pc.looking e h = elim (Option-cases (find i s.slots)) [
  | inl gone ↦ (_, _, Move.no_slot gone, omega arith)
  | inr (addr, there) ↦ (_, _, Move.has_slot there, omega arith)
]
reader_goes i s (Pc.wants_slot addr) e h = (_, _, Move.lock_slot e, omega arith)
reader_goes i s (Pc.calling addr) e h = (_, _, Move.finish, omega arith)
reader_goes i s Pc.idle e h = absurd (omega arith)
reader_goes i s (Pc.wants_open host port) e h = absurd (omega arith)
reader_goes i s (Pc.opening host port) e h = absurd (omega arith)
reader_goes i s Pc.wants_close e h = absurd (omega arith)
reader_goes i s Pc.closing e h = absurd (omega arith)
reader_goes i s Pc.wants_call e h = absurd (omega arith)

waiter_goes :
    (i : ℕ) (s : Shared) (q : Pc)
    → s.writer ≡ false
    → s.readers ≡ 0
    → writing q ≡ 0
    → reading q ≡ 0
    → q ≢ Pc.idle
    → GoesOn i s q
waiter_goes i s Pc.idle free none_in w r h = absurd (h refl)
waiter_goes i s (Pc.wants_open host port) free none_in w r h =
    (_, _, Move.lock_open free none_in, omega arith)
waiter_goes i s Pc.wants_close free none_in w r h =
    (_, _, Move.lock_close free none_in, omega arith)
waiter_goes i s Pc.wants_call free none_in w r h = (_, _, Move.lock_shared free, omega arith)
waiter_goes i s (Pc.opening host port) free none_in w r h = absurd (omega arith)
waiter_goes i s Pc.closing free none_in w r h = absurd (omega arith)
waiter_goes i s Pc.looking free none_in w r h = absurd (omega arith)
waiter_goes i s (Pc.wants_slot addr) free none_in w r h = absurd (omega arith)
waiter_goes i s (Pc.calling addr) free none_in w r h = absurd (omega arith)

-- In every reachable state in which some thread is in a call of the library, some thread can take
-- a step that goes on with its call.
pub no_deadlock :
    {n : ℕ} {s : System}
    → Reach n s
    → (i : ℕ) → i < n
    → s.pc i ≢ Pc.idle
    → (j : ℕ) × (j < n) × GoesOn j s.shared (s.pc j)
no_deadlock {n} {s} r i lt busy =
    let inv = Reach-Inv r in
    elim (Bool-cases s.shared.writer) [
      | inl yes_in ↦
          let one : num s.shared.writer ≡ 1 = rw yes_in refl in
          let (j, l, w) = total_some writing n s.pc (omega (arith, inv.writers, one)) in
          (j, l, writer_goes j s.shared (s.pc j) w)
      | inr none_in ↦ elim (zero_or (total reading n s.pc)) [
        | inr some_in ↦
            let (j, l, w) = total_some reading n s.pc some_in in
            (j, l, reader_goes j s.shared (s.pc j) (inv.locked j) w)
        | inl empty ↦
            let zero_in : num s.shared.writer ≡ 0 = rw none_in refl in
            (
              i,
              lt,
              waiter_goes i s.shared (s.pc i) none_in (sym inv.readers ∙ empty)
                  (omega (arith, total_one writing n i s.pc lt, inv.writers, zero_in))
                  (omega (arith, total_one reading n i s.pc lt, empty)) busy,
            )
      ]
    ]

-- Steps of threads that are in a call: none starts a new one.
pub data Runs (n : ℕ) (s : System) : ℕ → System → Type 0 where
  here : Runs n s 0 s
  next :
      {k : ℕ} {t : System} (i : ℕ) {m : Shared} {p : Pc}
      → Runs n s k t
      → i < n
      → Move i t.shared (t.pc i) m p
      → t.pc i ≢ Pc.idle
      → Runs n s (suc k) (record { shared = m; pc = set t.pc i p })

-- Each step of a call brings the thread closer to its end.
Move-work : {i : ℕ} {s m : Shared} {q p : Pc} → Move i s q m p → q ≢ Pc.idle → work p < work q
Move-work Move.ask_open h = absurd (h refl)
Move-work Move.ask_close h = absurd (h refl)
Move-work Move.ask_call h = absurd (h refl)
Move-work (Move.lock_open e e') h = omega arith
Move-work Move.do_open h = omega arith
Move-work (Move.lock_close e e') h = omega arith
Move-work Move.do_close h = omega arith
Move-work (Move.lock_shared e) h = omega arith
Move-work (Move.no_slot e) h = omega arith
Move-work Move.exists_ends h = omega arith
Move-work (Move.has_slot e) h = omega arith
Move-work (Move.lock_slot e) h = omega arith
Move-work Move.finish h = omega arith

-- The steps that all threads have left.
abbrev pub left : ℕ → System → ℕ
left n s = total work n s.pc

-- However the threads are scheduled, as long as no thread starts a new call, they take no more
-- steps than their calls have left at the start.
pub Runs_bounded :
    {n : ℕ} {s : System} {k : ℕ} {t : System} → Runs n s k t → k + left n t ≤ left n s
Runs_bounded here = omega arith
Runs_bounded {n} (next {t = t} i {p = p} r lt mv going) =
    omega (arith, Runs_bounded r, total-set work n i t.pc p lt, Move-work mv going)

Runs-Reach : {n : ℕ} {s : System} {k : ℕ} {t : System} → Reach n s → Runs n s k t → Reach n t
Runs-Reach reach here = reach
Runs-Reach reach (next i r lt mv going) = later (Runs-Reach reach r) (pick i lt mv)

-- The end of a run in which every call has returned.
abbrev pub AllReturn : ℕ → System → Type 0
AllReturn n s = (k : ℕ) × (t : System) × Runs n s k t × ((i : ℕ) → i < n → t.pc i ≡ Pc.idle)

idle_without_work : (q : Pc) → work q ≡ 0 → q ≡ Pc.idle
idle_without_work Pc.idle h = refl
idle_without_work (Pc.wants_open host port) h = absurd (omega arith)
idle_without_work (Pc.opening host port) h = absurd (omega arith)
idle_without_work Pc.wants_close h = absurd (omega arith)
idle_without_work Pc.closing h = absurd (omega arith)
idle_without_work Pc.wants_call h = absurd (omega arith)
idle_without_work Pc.looking h = absurd (omega arith)
idle_without_work (Pc.wants_slot addr) h = absurd (omega arith)
idle_without_work (Pc.calling addr) h = absurd (omega arith)

busy : (q : Pc) → 0 < work q → q ≢ Pc.idle
busy q h e = let none_left : work q ≡ 0 = rw e refl in absurd (omega (arith, none_left, h))

return_within :
    {n : ℕ} {s : System} (fuel k : ℕ) (t : System)
    → Reach n s
    → Runs n s k t
    → left n t ≤ fuel
    → AllReturn n s
return_within {n} zero k t reach r few =
    (k, t, r, λ i lt. idle_without_work (t.pc i) (omega (arith, total_one work n i t.pc lt, few)))
return_within {n} (suc fuel) k t reach r few = elim (zero_or (left n t)) [
  | inl done ↦ return_within fuel k t reach r (omega (arith, done))
  | inr some_left ↦
      let (i, lt, w) = total_some work n t.pc some_left in
      let (j, l, (m, p, mv, less)) = no_deadlock (Runs-Reach reach r) i lt (busy (t.pc i) w) in
      return_within fuel (suc k) (record { shared = m; pc = set t.pc j p }) reach
        (next j r l mv (busy (t.pc j) (omega (arith, less))))
        (omega (arith, total-set work n j t.pc p l, less, few))
]

-- From every reachable state the threads can be run, without new calls, until all calls have
-- returned.
pub calls_return : {n : ℕ} {s : System} → Reach n s → AllReturn n s
calls_return {n} {s} reach = return_within (left n s) 0 s reach here (omega arith)
