-- ===== src/CExample/Outcome.antt =====
-- How the example ends.
use libupsf.Prelude.{
  ℕ, ◌≡◌, ◌≢◌, refl, sym, ap, ◌∙◌, Bool, true, false, List, [], ◌∷◌, ◌++◌, Option, none, some, ℤ,
  pos, negsuc, arith, if◌then◌else◌,
}
use libupsf.Text.{Bytes}
use libupsf.MapField.{MapField}
use libupsf.Messages.{Timestamp}
use libupsf.Service.{Item, Stub}
use libupsf.Slots.{Slots, upsf_open}
use libupsf.Subscriber.{upsf_subscribe}
use libupsf.Subscriber.Serving.{failed, upsf_subscribe_lem}
use libupsf.Printing.Common.{codes}
use libupsf.CExample.Steps.{Action, pure, behind}
use libupsf.CExample.Program.{
  Stack, test_subscribe, all_callbacks, main, run_tests, unless_failed, finish, call_back_all,
}

-- What the program returns, if it returns.
abbrev pub ended : {World : Type 0} → Option (World × List Bytes × Option ℤ) → Option ℤ
ended none = none
ended (some (w, lines, code)) = code

-- The action does not return 0.
abbrev Fails : {World : Type 0} → Action World (Option ℤ) → Type 0
Fails {World} a = (w : World) → ended (a w) ≢ some (pos 0)

module _ {World : Type 0} where
  ended-more :
      (lines : List Bytes) (o : Option (World × List Bytes × Option ℤ))
      → ended (elim o [ none ↦ none | some (w, more, b) ↦ some (w, lines ++ more, b) ]) ≡ ended o
  ended-more lines none = refl
  ended-more lines (some (w, more, b)) = refl

  Fails-behind :
      {A : Type 0} (f : A → Action World (Option ℤ)) (o : Option (World × List Bytes × A))
      → ((a : A) → Fails (f a))
      → ended (behind f o) ≢ some (pos 0)
  Fails-behind f none h e = ground arith
  Fails-behind f (some (w, more, a)) h e = h a w (sym (ended-more more (f a w)) ∙ e)

  Fails-unless :
      (rest : Action World (Option ℤ)) (n : ℤ) → Fails rest → Fails (unless_failed rest n)
  Fails-unless rest (negsuc n) h w e = ground arith
  Fails-unless rest (pos n) h w e = h w e

  Fails-run_tests :
      (tests : List (Action World ℤ)) (rest : Action World (Option ℤ))
      → Fails rest
      → Fails (run_tests tests rest)
  unfolding run_tests
  Fails-run_tests [] rest h = h
  Fails-run_tests (test ∷ tests) rest h = λ w.
      Fails-behind (λ code. unless_failed (run_tests tests rest) code) (test w)
        λ code. Fails-unless (run_tests tests rest) code (Fails-run_tests tests rest h)

  -- An action behind one whose result is known.
  Fails-last :
      {A : Type 0} (f : A → Action World (Option ℤ)) (a : A)
      (o : Option (World × List Bytes × Unit))
      → Fails (f a)
      → ended (behind f (behind (λ u. pure a) o)) ≢ some (pos 0)
  Fails-last f a none h e = ground arith
  Fails-last f a (some (w, more, u)) h e = h w (sym (ended-more (more ++ []) (f a w)) ∙ e)

  Fails-finish :
      (slots : Slots) (tid : ℕ) (o : Option ℤ)
      → ((n : ℕ) → o ≢ some (pos n))
      → Fails (λ (w : World). finish slots tid o w)
  Fails-finish slots tid none h w e = ground arith
  Fails-finish slots tid (some (negsuc n)) h w e = ground arith
  Fails-finish slots tid (some (pos n)) h w e = absurd (h n refl)

-- What test_subscribe makes of the result of upsf_subscribe.
abbrev passed_on : Option ℤ → Option ℤ
passed_on o = elim o [
  | none ↦ none
  | some (negsuc n) ↦ some (negsuc 0)
  | some (pos n) ↦ some (pos 0)
]

passed_on_fails :
    (b : Bool) (n : ℕ) → passed_on (if b then some (negsuc 0) else none) ≢ some (pos n)
passed_on_fails true n e = ground arith
passed_on_fails false n e = ground arith

subscription_fails :
    (rounds : List (List Item × Bool)) (n : ℕ)
    → passed_on (upsf_subscribe all_callbacks rounds).1 ≢ some (pos n)
subscription_fails rounds n =
    let result = ap (λ r. r.1) (upsf_subscribe_lem all_callbacks rounds).0 in
    rw result (passed_on_fails (failed rounds) n)

module _ {World : Type 0} (network : Bytes → Stub World) (time : Timestamp → Bytes) (stack : Stack)
    ⦃texts : MapField Bytes⦄ ⦃flags : MapField Bool⦄ where
  -- Whatever the arrays on its stack hold, and whatever the server answers and streams, the
  -- example does not return 0.
  pub main_fails :
      (slots : Slots) (tid : ℕ) (rounds : List (List Item × Bool)) (w : World)
      → ended (main network time stack slots tid rounds w) ≢ some (pos 0)
  unfolding main test_subscribe
  main_fails slots tid rounds =
      let opened = upsf_open (codes "127.0.0.1") (pos 50051) tid slots in
      Fails-run_tests _ _ λ w.
        Fails-last (finish opened.0 tid) (passed_on (upsf_subscribe all_callbacks rounds).1)
          (call_back_all network time stack (upsf_subscribe all_callbacks rounds).0 w)
          (Fails-finish opened.0 tid (passed_on (upsf_subscribe all_callbacks rounds).1)
            (subscription_fails rounds))
