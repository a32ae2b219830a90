-- ===== src/Client/Reading.antt =====
-- What the reads of UpsfClient find in a stream.
use libupsf.Prelude.{
  ℕ, suc, ◌+◌, ◌≡◌, ap, ◌∙◌, false, List, [], ◌∷◌, ◌++◌, none, some, arith, length, All,
  if◌then◌else◌,
}
use libupsf.Text.{Bytes}
use libupsf.MapField.{same_bytes}
use libupsf.Service.{Item, Stub, Kind, Stream, ReadReq, member_or}
use libupsf.Client.{seek, read}

-- The request that a read of one kind sends.
abbrev pub request : {M : Type 0} → Kind M → List Bytes → ReadReq
request kind names = record {
  itemtype = kind.itemtype ∷ [];
  itemstate = [];
  parent = [];
  name = names;
  watch = false;
}

module _ {M : Type 0} (kind : Kind M) where
  seek-append :
      (before after : List Item) (next item : Item) (m : M) (n : ℕ)
      → All (λ i. kind.unwrap i ≡ none) before
      → kind.unwrap next ≡ some m
      → seek kind (before ++ next ∷ after) item n ≡ (next, suc (length before + n))
  unfolding seek
  seek-append [] after next item m n h e = rw (e, seek) (ap (λ k. (next, k)) (omega arith))
  seek-append (i ∷ before) after next item m n h e =
      rw (h.0, seek)
        (seek-append before after next i m (suc n) h.1 e ∙ ap (λ k. (next, k)) (omega arith))

  seek_missing :
      (items : List Item) (item : Item) (n : ℕ)
      → All (λ i. kind.unwrap i ≡ none) items
      → kind.unwrap item ≡ none
      → kind.unwrap (seek kind items item n).0 ≡ none
  unfolding seek
  seek_missing [] item n h e = e
  seek_missing (i ∷ items) item n h e = rw (h.0, seek) (seek_missing items i (suc n) h.1 h.0)

module _ {World M : Type 0} (stub : Stub World) (kind : Kind M) (name : Bytes) (target : M)
    (w : World) {w' : World} (s : Stream)
    (sent : stub.read_v1 (request kind (name ∷ [])) w ≡ (w', s)) where
  -- A read by name takes the first item of its kind from the stream, whatever is streamed behind it:
  -- it succeeds with that item if the stream ends well and the item has the name, and fails with that
  -- item in the target if not.
  pub read_first :
      (before after : List Item) (next : Item) (m : M)
      → s.items ≡ before ++ next ∷ after
      → All (λ i. kind.unwrap i ≡ none) before
      → kind.unwrap next ≡ some m
      → read stub kind name target w
        ≡ (w', m, (if s.finish (suc (length before)) then same_bytes (kind.name m) name else false))
  unfolding read
  read_first before after next m e h u =
      let found = seek-append kind before after next Item.unset m 0 h u in
      let count : length before + 0 ≡ length before = omega arith in
      rw sent (rw e (rw found (rw (u, member_or) (rw count))))

  -- Where the stream has no item of the kind, the target stays, and the read succeeds only if the
  -- stream ends well and the name asked for is that of the default message.
  pub read_missing :
      All (λ i. kind.unwrap i ≡ none) s.items
      → kind.unwrap Item.unset ≡ none
      → (n : ℕ) × (read stub kind name target w
          ≡ (w', target, (if s.finish n then same_bytes (kind.name kind.default) name else false)))
  unfolding read
  read_missing h u = (
    (seek kind s.items Item.unset 0).1,
    rw sent (rw (seek_missing kind s.items Item.unset 0 h u, member_or)),
  )
