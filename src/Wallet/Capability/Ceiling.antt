-- ===== src/Wallet/Capability/Ceiling.antt =====
-- What a read session may negotiate.
use hns_dane_browser_extensi.Prelude.{
  ◌≡◌, refl, ap, sym, subst, ◌∙◌, inl, inr, Bool, true, false, ◌&&◌, ◌||◌, not, Bool-cases, none,
  some, List, [], ◌∷◌, any, ◌==◌, arith, if◌then◌else◌,
}
use hns_dane_browser_extensi.Wallet.Capability.{
  NegotiatedWalletServiceCapability, value_movement, browser_integration, place, has, collect_set,
  intersection, wallet_read_session_allowed_capabilities, holds_required,
  wallet_read_session_capability_ceiling,
}

has_as :
    (set : List NegotiatedWalletServiceCapability) (c d : NegotiatedWalletServiceCapability)
    → place c ≡ place d
    → has set c ≡ has set d
unfolding has
has_as set c d e = ap (λ n. any (λ x. place x == n) set) e

and_false : (b : Bool) → b && false ≡ false
and_false true = refl
and_false false = refl

-- A set intersected with another has what both have.
has-intersection :
    (set other : List NegotiatedWalletServiceCapability) (d : NegotiatedWalletServiceCapability)
    → has (intersection set other) d ≡ has set d && has other d
unfolding intersection has
has-intersection [] other d = refl
has-intersection (c ∷ cs) other d = elim (Bool-cases (has other c)) [
  | inl y ↦ elim (Bool-cases (place c == place d)) [
    | inl s ↦
        let e : has other d ≡ true = sym (has_as other c d (ground arith)) ∙ y in rw (y, s) (sym e)
    | inr n ↦ rw (y, n) (has-intersection cs other d)
  ]
  | inr y ↦ elim (Bool-cases (place c == place d)) [
    | inl s ↦
        let e : has other d ≡ false = sym (has_as other c d (ground arith)) ∙ y in
        rw (y, s)
          (has-intersection cs other d
            ∙ (ap (λ b. has cs d && b) e ∙ (and_false (has cs d) ∙ sym e)))
    | inr n ↦ rw (y, n) (has-intersection cs other d)
  ]
]

-- What a ceiling grants: exactly what the artifact admits and a read session allows, all that a read
-- session requires, and neither value movement nor browser integration.
pub record IsGranted (admitted ceiling : List NegotiatedWalletServiceCapability) : Type 0 where
  pub grants :
      (c : NegotiatedWalletServiceCapability)
      → has ceiling c
        ≡ has admitted c && has (collect_set wallet_read_session_allowed_capabilities) c
  pub complete : holds_required ceiling ≡ true
  pub no_value : has ceiling value_movement ≡ false
  pub no_browser : has ceiling browser_integration ≡ false

module _ (admitted : List NegotiatedWalletServiceCapability) where
  abbrev common : List NegotiatedWalletServiceCapability
  common = intersection admitted (collect_set wallet_read_session_allowed_capabilities)

  ceiling_of :
      (a r v b : Bool) (ceiling : List NegotiatedWalletServiceCapability)
      → (if not a then none else if not r || v || b then none else some common) ≡ some ceiling
      → (common ≡ ceiling) × (r ≡ true) × (v ≡ false) × (b ≡ false)
  ceiling_of false r v b ceiling h = cc
  ceiling_of true false v b ceiling h = cc
  ceiling_of true true true b ceiling h = cc
  ceiling_of true true false true ceiling h = cc
  ceiling_of true true false false ceiling h = (some-eq common ceiling h, refl, refl, refl)
    where
      some-eq : (x y : List NegotiatedWalletServiceCapability) → some x ≡ some y → x ≡ y
      some-eq x y h = cc

  -- The ceiling of a read session, where there is one, is such a set.
  pub capability_ceiling-IsGranted :
      (ceiling : List NegotiatedWalletServiceCapability)
      → wallet_read_session_capability_ceiling admitted ≡ some ceiling
      → IsGranted admitted ceiling
  unfolding wallet_read_session_capability_ceiling
  capability_ceiling-IsGranted ceiling h =
      let (e, r, v, b) =
        ceiling_of (holds_required admitted) (holds_required common) (has common value_movement)
          (has common browser_integration) ceiling h in
      subst (IsGranted admitted) e (record {
        grants =
            λ c. has-intersection admitted (collect_set wallet_read_session_allowed_capabilities) c;
        complete = r;
        no_value = v;
        no_browser = b;
      })
