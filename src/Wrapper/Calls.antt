-- ===== src/Wrapper/Calls.antt =====
-- What the calls of the C interface do, for every kind of item.
use libupsf.Prelude.{
  ℕ, ◌≡◌, ◌≢◌, Bool, true, false, [], ◌∷◌, some, arith, inl, inr, Option-cases, if◌then◌else◌,
}
use libupsf.Text.{Bytes, load}
use libupsf.MapField.{same_bytes, same_bytes→eq}
use libupsf.Service.{Stub, Kind}
use libupsf.Client.{read}
use libupsf.Slots.{Slots, find}
use libupsf.Wrapper.{Exported, is_empty, filled, upsf_get}

same_if : (b : Bool) (s t : Bytes) → (if b then same_bytes s t else false) ≡ true → s ≡ t
same_if true s t h = same_bytes→eq s t h
same_if false s t h = cc

is_empty-nil : (s : Bytes) → is_empty s ≡ false → s ≢ []
unfolding is_empty
is_empty-nil [] h = cc
is_empty-nil (c ∷ s) h = λ e. cc

-- A read by name into a default message succeeds only if the message is then one of that name.
pub name-read :
    {World M : Type 0} (stub : Stub World) (kind : Kind M) (name : Bytes) (w : World)
    → (read stub kind name kind.default w).2 ≡ true
    → kind.name (read stub kind name kind.default w).1 ≡ name
unfolding read
name-read stub kind name w h = same_if _ _ _ h

module _ {World : Type 0} (network : Bytes → Stub World) {C M : Type 0} (x : Exported C M)
    (slots : Slots) (tid : ℕ) (w : World) where
  -- Where a get fills the buffer, it does so with the structure of an item that has the name that
  -- stood in the buffer, and that name is not empty.
  pub upsf_get_sound :
      (buffer c : C) {w' : World}
      → upsf_get network x slots tid (some buffer) w ≡ some (w', filled c)
      → (m : M) × (c ≡ x.to_c m)
        × (load (x.name buffer) ≡ some (x.kind.name m))
        × (x.kind.name m ≢ [])
  unfolding upsf_get
  upsf_get_sound buffer c h = elim (Option-cases (find tid slots)) [
    | inl e ↦ absurd (ground arith)
    | inr (addr, e) ↦ elim (Option-cases (load (x.name buffer))) [
      | inl e' ↦ absurd (ground arith)
      | inr (name, e') ↦
          let r = read (network addr) x.kind name x.kind.default w in
          (
            r.1,
            ground arith,
            ground (arith, name-read (network addr) x.kind name w),
            ground (arith, is_empty-nil (x.kind.name r.1)),
          )
    ]
  ]
