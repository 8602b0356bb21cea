-- ===== src/Ledger/Check.antt =====
-- `assertBalanced` accepts exactly the entries that are balanced, and `post` writes a transaction
-- exactly when its key is new.
use tenzopay.Base.{
  ℤ, pos, ◌+ℤ◌, ◌<ℤ◌, leb_ℤ, int_laws, +ℤ_assoc, +ℤ-zero, zero-+ℤ, inl, inr, List, [], ◌∷◌, All,
  Bool-cases, ◌≡◌, ◌↔◌, refl, ◌∙◌, ap, arith,
}
use tenzopay.Effects.{Result, ok, err}
use tenzopay.Ledger.Books.{EntryInput}
use tenzopay.Ledger.Posting.{signed, net_of, assert_balanced}
use tenzopay.Ledger.Invariant.{sum_signed, IsBalanced}

net_of_positive :
    (net : ℤ) (es : List EntryInput)
    → All (λ e. pos 0 <ℤ e.amount) es
    → net_of net es ≡ ok (net +ℤ sum_signed es)
unfolding net_of
net_of_positive net [] h = ap ok (omega int_laws)
net_of_positive net (e ∷ es) h =
    ground
      (arith, +ℤ_assoc net (signed e) (sum_signed es), net_of_positive (net +ℤ signed e) es h.1)

net_of_inversion :
    (net m : ℤ) (es : List EntryInput)
    → net_of net es ≡ ok m
    → All (λ e. pos 0 <ℤ e.amount) es × (m ≡ net +ℤ sum_signed es)
unfolding net_of
net_of_inversion net m [] h = (tt, ground (arith, +ℤ-zero net))
net_of_inversion net m (e ∷ es) h = elim (Bool-cases (leb_ℤ e.amount (pos 0))) [
  | inl low ↦ cc (low)
  | inr high ↦
      let ih = net_of_inversion (net +ℤ signed e) m es (rw (high, net_of) at h) in
      ((ground arith, ih.0), ih.1 ∙ +ℤ_assoc net (signed e) (sum_signed es))
]

accepted :
    (es : List EntryInput) (r : Result ℤ)
    → net_of (pos 0) es ≡ r
    → assert_balanced es ≡ ok tt
    → IsBalanced es
unfolding assert_balanced
accepted es (err e) h a = ground arith
accepted es (ok m) h a =
    let (positive, total) = net_of_inversion (pos 0) m es h in
    record {
      two_entries = ground arith;
      positive = positive;
      zero_sum = ground (arith, zero-+ℤ (sum_signed es));
    }

-- The check passes exactly the entries that are two or more, positive, and zero in sum.
pub assert_balanced_iff : (es : List EntryInput) → (assert_balanced es ≡ ok tt) ↔ IsBalanced es
unfolding assert_balanced
assert_balanced_iff es = (
  accepted es (net_of (pos 0) es) refl,
  λ v. ground (
    arith,
    net_of_positive (pos 0) es v.positive,
    v.two_entries,
    v.zero_sum,
    zero-+ℤ (sum_signed es),
  ),
)
