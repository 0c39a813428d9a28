-- ===== src/Base/Exec.antt =====
-- Code that changes the outside world and may raise. What was done before a raise stays done, so
-- the world comes back beside the error too.
use Prim.Native.Nat.{ℕ, zero, suc, ◌<◌}
use Prim.Native.String.{String}
use mathlib.Core.Path.{◌≡◌, refl, ap, ◌∙◌, sym}
use mathlib.Core.Logic.{◌↔◌, ◌⊎◌, inl, inr}
use native.Mathlib.Omega.{arith}
use devpath_shared.Base.Result.{
  refused, http_error, os_error, process_error, value_error, type_error, key_error, assertion_error,
  Result, ok, err,
}

abbrev pub Exec {ℓ} : Type ℓ → Type ℓ → Type ℓ
Exec W A = W → Result A × W

module _ {ℓ} {W A : Type ℓ} where
  abbrev pub pure : A → Exec W A
  pure a w = (ok a, w)

  abbrev pub lift : Result A → Exec W A
  lift r w = (r, w)

infixl 5 ◌>>=◌ ◌>>◌
unfoldable pub ◌>>=◌ {ℓ} : {W A B : Type ℓ} → Exec W A → (A → Exec W B) → Exec W B
◌>>=◌ m f w = let (r, w') = m w in elim r [ ok a ↦ f a w' | err e ↦ (err e, w') ]

abbrev pub ◌>>◌ {ℓ} : {W A B : Type ℓ} → Exec W A → Exec W B → Exec W B
m >> k = m >>= λ _. k

module _ {ℓ} {W A B : Type ℓ} where
  pub >>=-eq-ok :
      (m : Exec W A) (f : A → Exec W B) (w : W) {b : B} {w' : W}
      → (m >>= f) w ≡ (ok b, w')
      → (a : A) × (v : W) × (m w ≡ (ok a, v)) × (f a v ≡ (ok b, w'))
  unfolding ◌>>=◌
  >>=-eq-ok m f w {b} {w'} h = split (m w) refl h
    where
      split :
          (p : Result A × W)
          → m w ≡ p
          → (let (r, v) = p in elim r [ ok a ↦ f a v | err e ↦ (err e, v) ]) ≡ (ok b, w')
          → (a : A) × (v : W) × (m w ≡ (ok a, v)) × (f a v ≡ (ok b, w'))
      split (ok a, v) e g = (a, v, e, g)
      split (err x, v) e g = absurd (ground arith)

  pub >>=-of_ok :
      (m : Exec W A) (f : A → Exec W B) (w : W) {a : A} {v : W}
      → m w ≡ (ok a, v)
      → (m >>= f) w ≡ f a v
  unfolding ◌>>=◌
  >>=-of_ok m f w {a} {v} e = rw (e, ◌>>=◌) (ap (f a) (ap (λ (p : Result A × W). p.1) e))

  -- The same of a step that only computes.
  pub lift->>=-eq_ok :
      (r : Result A) (f : A → Exec W B) (w : W) {b : B} {w' : W}
      → (lift r >>= f) w ≡ (ok b, w')
      → (a : A) × (r ≡ ok a) × (f a w ≡ (ok b, w'))
  unfolding ◌>>=◌
  lift->>=-eq_ok (ok a) f w h = (a, refl, h)
  lift->>=-eq_ok (err e) f w h = absurd (ground arith)

-- `for attempt in range(1, retries + 1): try … except Error: sleep`, as both publishers write it:
-- only the script's own error is caught, the last attempt raises it, and between two attempts the
-- script sleeps.
module _ {ℓ} {W A : Type ℓ} (action : Exec W A) (sleep : W → W) where
  unfoldable pub retry : ℕ → Exec W A
  retry zero w = (err assertion_error, w)
  retry (suc zero) w = action w
  retry (suc (suc n)) w =
      let again = retry (suc n) (sleep (action w).1) in
      elim (action w).0 [ ok a ↦ action w | err e ↦ elim e [ refused m ↦ again | _ ↦ action w ] ]

  -- The world before attempt `k` if all attempts before it are refused.
  unfoldable pub after_attempts : ℕ → W → W
  after_attempts zero w = w
  after_attempts (suc k) w = after_attempts k (sleep (action w).1)

  abbrev pub IsRefused : Result A → Type ℓ
  IsRefused r = (m : String) × (r ≡ err (refused m))

  IsRefused-cases : (r : Result A) → IsRefused r ⊎ ¬ IsRefused r
  IsRefused-cases (ok a) = inr (λ h. absurd (unrefuse h.1))
    where
      unrefuse : {m : String} → ok a ≡ err (refused m) → ⊥
      unrefuse e = cc
  IsRefused-cases (err (refused m)) = inl (m, refl)
  IsRefused-cases (err os_error) = inr (λ h. cc (h.1))
  IsRefused-cases (err process_error) = inr (λ h. cc (h.1))
  IsRefused-cases (err value_error) = inr (λ h. cc (h.1))
  IsRefused-cases (err type_error) = inr (λ h. cc (h.1))
  IsRefused-cases (err key_error) = inr (λ h. cc (h.1))
  IsRefused-cases (err assertion_error) = inr (λ h. cc (h.1))
  IsRefused-cases (err (http_error n)) = inr (λ h. cc (h.1))

  retry-eq_of_refused :
      (n : ℕ) (w : W)
      → IsRefused (action w).0
      → retry (suc (suc n)) w ≡ retry (suc n) (sleep (action w).1)
  unfolding retry
  retry-eq_of_refused n w (m, e) = ground arith

  retry-eq_of_settled : (n : ℕ) (w : W) → ¬ IsRefused (action w).0 → retry (suc n) w ≡ action w
  retry-eq_of_settled zero w h = unfold retry in refl
  retry-eq_of_settled (suc n) w h = settle (action w).0 refl
    where
      settle : (r : Result A) → (action w).0 ≡ r → retry (suc (suc n)) w ≡ action w
      settle (ok a) e = unfold retry in ground arith
      settle (err (refused m)) e = absurd (h (m, e))
      settle (err os_error) e = unfold retry in ground arith
      settle (err process_error) e = unfold retry in ground arith
      settle (err value_error) e = unfold retry in ground arith
      settle (err type_error) e = unfold retry in ground arith
      settle (err key_error) e = unfold retry in ground arith
      settle (err assertion_error) e = unfold retry in ground arith
      settle (err (http_error k)) e = unfold retry in ground arith

  abbrev pub Settles : ℕ → W → A → W → Type ℓ
  Settles n w a w' =
      (k : ℕ) × (k < n)
      × ((j : ℕ) → j < k → IsRefused (action (after_attempts j w)).0)
      × (action (after_attempts k w) ≡ (ok a, w'))

  ok-not-IsRefused : (w : W) {a : A} {w' : W} → action w ≡ (ok a, w') → ¬ IsRefused (action w).0
  ok-not-IsRefused w e (m, f) = ground arith

  retry_sound : (n : ℕ) (w : W) {a : A} {w' : W} → retry n w ≡ (ok a, w') → Settles n w a w'
  unfolding retry after_attempts
  retry_sound zero w h = absurd (ground arith)
  retry_sound (suc zero) w h = (0, omega arith, λ j l. absurd (omega arith), h)
  retry_sound (suc (suc n)) w h = elim (IsRefused-cases (action w).0) [
    | inl refused_now ↦
        let (k, below, before, last) =
          retry_sound (suc n) (sleep (action w).1)
            (sym (retry-eq_of_refused n w refused_now) ∙ h) in
        (
          suc k,
          omega arith,
          elim [ zero ↦ λ l. refused_now | suc j ↦ λ l. before j (omega arith) ],
          last,
        )
    | inr settled ↦ (
      0,
      omega arith,
      λ j l. absurd (omega arith),
      sym (retry-eq_of_settled (suc n) w settled) ∙ h,
    )
  ]

  retry_complete : (n : ℕ) (w : W) {a : A} {w' : W} → Settles n w a w' → retry n w ≡ (ok a, w')
  unfolding after_attempts
  retry_complete zero w (k, below, before, last) = absurd (omega arith)
  retry_complete (suc n) w (zero, below, before, last) =
      retry-eq_of_settled n w (ok-not-IsRefused w last) ∙ last
  retry_complete (suc zero) w (suc k, below, before, last) = absurd (omega arith)
  retry_complete (suc (suc n)) w (suc k, below, before, last) =
      retry-eq_of_refused n w (before 0 (omega arith))
      ∙ retry_complete (suc n) (sleep (action w).1)
          (k, omega arith, λ j l. before (suc j) (omega arith), last)

  -- The loop returns a value exactly when one of its first `n` attempts returns it and every attempt
  -- before that one was refused.
  pub retry-ok_iff : (n : ℕ) (w : W) (a : A) (w' : W) → (retry n w ≡ (ok a, w')) ↔ Settles n w a w'
  retry-ok_iff n w a w' = (retry_sound n w, retry_complete n w)
