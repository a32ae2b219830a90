-- ===== src/Subscriber/Serving.antt =====
-- When a subscription ends, and what it delivers.
use mathlib.Core.List.{append_assoc}
use libupsf.Prelude.{
  ◌≡◌, ◌≢◌, refl, ap, sym, ◌∙◌, Bool, true, false, List, [], ◌∷◌, ◌++◌, Option, none, some, pos,
  negsuc, arith, ◌⊎◌, inl, inr, if◌then◌else◌, ◌>>=◌,
}
use libupsf.Text.{Bytes}
use libupsf.Service.{Item}
use libupsf.Subscriber.{
  Subscriber, Callbacks, set_values, subscribe_request, notify, notify_all, serve, upsf_subscribe,
  exit_code,
}

-- The items of the rounds up to the first bad status, that of its round included.
abbrev pub delivered : List (List Item × Bool) → List Item
delivered [] = []
delivered ((items, true) ∷ rounds) = items ++ delivered rounds
delivered ((items, false) ∷ rounds) = items

-- Whether some round ended badly.
abbrev pub failed : List (List Item × Bool) → Bool
failed [] = false
failed ((items, true) ∷ rounds) = failed rounds
failed ((items, false) ∷ rounds) = true

notify_all-append :
    {E : Type 0} (f : Item → List E) (xs ys : List Item)
    → notify_all f (xs ++ ys) ≡ notify_all f xs ++ notify_all f ys
unfolding notify_all
notify_all-append f [] ys = refl
notify_all-append f (x ∷ xs) ys = rw (notify_all-append f xs ys, append_assoc)

serve_watching :
    {E : Type 0} (f : Item → List E) (rounds : List (List Item × Bool))
    → serve true f rounds
      ≡ (notify_all f (delivered rounds), (if failed rounds then some false else none))
unfolding serve
serve_watching f [] = refl
serve_watching f ((items, true) ∷ rounds) =
    rw (serve_watching f rounds, notify_all-append f items (delivered rounds))
serve_watching f ((items, false) ∷ rounds) = refl

exit_code_failed :
    (b : Bool) → exit_code (if b then some false else none) ≡ (if b then some (negsuc 0) else none)
exit_code_failed true = refl
exit_code_failed false = refl

never_zero : (b : Bool) → exit_code (if b then some false else none) ≢ some (pos 0)
never_zero true h = ground arith
never_zero false h = ground arith

-- A subscription calls back for every item up to the first failure, in the order of the stream, and
-- returns then and only then, with -1. It never returns 0.
pub upsf_subscribe_lem :
    (cbs : Callbacks) (rounds : List (List Item × Bool))
    → (upsf_subscribe cbs rounds ≡ (
      notify_all (notify cbs) (delivered rounds),
      (if failed rounds then some (negsuc 0) else none),
    ))
      × ((upsf_subscribe cbs rounds).1 ≢ some (pos 0))
unfolding upsf_subscribe
upsf_subscribe_lem cbs rounds = (
  rw (serve_watching (notify cbs) rounds, exit_code_failed (failed rounds)),
  λ eq.
      never_zero (failed rounds)
        (ap (λ r. exit_code r.1) (sym (serve_watching (notify cbs) rounds)) ∙ eq),
)

set_values_absent : (xs : List Bytes) → xs ≢ [] → set_values xs 0 [] ≡ none
unfolding set_values
set_values_absent [] h = absurd (h refl)
set_values_absent (x ∷ xs) h = refl

no_second :
    {A B C : Type 0} (o : Option A) (f : A → B → C) (p : Option B)
    → p ≡ none
    → (do x ← o; y ← p; some (f x y)) ≡ none
no_second none f p h = refl
no_second (some x) f p h = rw h

-- The request of a subscriber is made only if it restricts neither parents nor names: for any other
-- subscriber the code writes to an element that the request does not have.
pub subscribe_request_restricted :
    (s : Subscriber) → (s.parents ≢ []) ⊎ (s.names ≢ []) → subscribe_request s ≡ none
unfolding subscribe_request
subscribe_request_restricted s (inl p) = rw (set_values_absent s.parents p)
subscribe_request_restricted s (inr p) =
    no_second (set_values s.parents 0 []) _ (set_values s.names 0 []) (set_values_absent s.names p)
