-- ===== src/Gate/Fence/Append.antt =====
-- A text in front of another one: what its tests and its overrides become.
use devpath_shared.Base.{
  ℕ, ◌+◌, ◌-◌, ◌≡◌, refl, ap, ◌⊎◌, inl, inr, Bool, true, false, ◌||◌, none, some, List, [], ◌∷◌,
  ◌++◌, ◌==◌, length, length-append, Bool-cases, arith,
}
use devpath_shared.Base.Text.{codes}
use devpath_shared.Base.Result.{}
use devpath_shared.Gate.Text.{holds, ends_line, take, drop, eq_raw_iff}
use devpath_shared.Gate.Fence.{behind, colon_follows, override_here, count_overrides, ends_with}

pub holds-append : (c : ℕ) (a b : List ℕ) → holds c (a ++ b) ≡ (holds c a || holds c b)
holds-append c [] b = refl
holds-append c (d ∷ a) b = ground (arith, holds-append c a b)

pub ends_line-append : (a b : List ℕ) (c : ℕ) → ends_line (a ++ (c ∷ b)) ≡ ends_line (c ∷ b)
ends_line-append [] b c = refl
ends_line-append (d ∷ []) b c = refl
ends_line-append (d ∷ e ∷ a) b c = ends_line-append (e ∷ a) b c

pub take-append : (a b : List ℕ) → take (length a) (a ++ b) ≡ a
take-append [] b = refl
take-append (c ∷ a) b = ap (λ (s : List ℕ). c ∷ s) (take-append a b)

drop-append : (a b : List ℕ) → drop (length a) (a ++ b) ≡ b
drop-append [] b = refl
drop-append (c ∷ a) b = drop-append a b

pub ends_with-append : (a b : List ℕ) → ends_with b (a ++ b) ≡ true
ends_with-append a b =
    let size : length (a ++ b) - length b ≡ length a = omega (arith, length-append a b) in
    ground (arith, size, drop-append a b, length-append a b, (eq_raw_iff b b).1 refl)

-- A text that ends a line, in front of one that begins with `r`.
module _ (block : List ℕ) where
  colon-append :
      (s : List ℕ) → ends_line s ≡ true → colon_follows (s ++ (b'r' ∷ block)) ≡ colon_follows s
  colon-append [] h = cc
  colon-append (c ∷ []) h = let e : c ≡ b'\n' = ground arith in rw e refl
  colon-append (c ∷ d ∷ s) h = ground (arith, colon-append (d ∷ s) h)

  behind-append :
      (p s : List ℕ)
      → holds b'\n' p ≡ false
      → ends_line s ≡ true
      → ((behind p s ≡ none) × (behind p (s ++ (b'r' ∷ block)) ≡ none))
        ⊎ ((rest : List ℕ) × (behind p s ≡ some rest)
            × (ends_line rest ≡ true)
            × (behind p (s ++ (b'r' ∷ block)) ≡ some (rest ++ (b'r' ∷ block))))
  behind-append [] s clean h = inr (s, refl, h, refl)
  behind-append (d ∷ p) [] clean h = cc
  behind-append (d ∷ p) (c ∷ []) clean h = let e : c ≡ b'\n' = ground arith in inl (ground arith)
  behind-append (d ∷ p) (c ∷ e ∷ s) clean h = elim (Bool-cases (d == c)) [
    | inr other ↦ inl (rw other (refl, refl))
    | inl same ↦ rw same (behind-append p (e ∷ s) (ground arith) h)
  ]

  override-append :
      (s : List ℕ) → ends_line s ≡ true → override_here (s ++ (b'r' ∷ block)) ≡ override_here s
  unfolding override_here codes
  override-append s h = elim (behind-append (codes "replicas") s refl h) [
    | inl (shut, shut_too) ↦ ground (arith, shut, shut_too)
    | inr (rest, open_here, ends, open_there) ↦
        ground (arith, open_here, open_there, colon-append rest ends)
  ]

  pub count-append :
      (at_line : Bool) (s : List ℕ)
      → ends_line s ≡ true
      → count_overrides at_line (s ++ (b'r' ∷ block))
        ≡ count_overrides at_line s + count_overrides true (b'r' ∷ block)
  unfolding count_overrides
  count-append at_line [] h = cc
  count-append at_line (c ∷ []) h =
      let e : c ≡ b'\n' = ground arith in rw (override-append (c ∷ []) h, e) (omega arith)
  count-append at_line (c ∷ d ∷ s) h =
      rw (override-append (c ∷ d ∷ s) h, count-append (c == b'\n') (d ∷ s) h) (omega arith)
