-- ===== src/Config/Loads.antt =====
-- Which settings the commands start with: Load, LoadPostgres and LoadAuth of internal/config/config.go.
use storefront.Common.{Text, [], ap, arith, length, refl, sym, ◌↔◌, ◌∙◌, ◌∷◌, ◌≡◌, ◌≤◌}
use storefront.Config.{
  Loaded, Problems, Settings, if_usable, load, load_auth, load_postgres, settings_of, unparsed,
  unusable, validate, validate_auth, validate_postgres, validated,
}
use storefront.Config.Guarantees.{Usable, usable_postgres, validate_iff}
use storefront.Errors.{Result, err, ok, ok_injective, same}

if_usable_iff :
    {A : Type 0} (a b : A) (ps : Problems)
    → (if_usable b ps ≡ settings_of a) ↔ ((b ≡ a) × (ps ≡ []))
if_usable_iff {A} a b [] = (
  (λ h. (
    ap (λ (l : Loaded A). elim l [ settings_of x ↦ x | unparsed e ↦ b | unusable ps ↦ b ]) h,
    refl,
  )),
  (λ h. ap settings_of h.0),
)
if_usable_iff a b (p ∷ ps) = ((λ h. absurd cc), (λ h. absurd cc))

validated_iff :
    {A : Type 0} (check : A → Problems) (parsed : Result A) (a : A)
    → (validated check parsed ≡ settings_of a) ↔ ((parsed ≡ ok a) × (check a ≡ []))
validated_iff {A} check (err e) a = ((λ h. absurd cc), (λ h. absurd cc))
validated_iff {A} check (ok b) a = (
  (λ h.
      let (same, none_found) = (if_usable_iff a b (check b)).0 h in
      (ap (λ (x : A). ok x) same, ap check (sym same) ∙ none_found)),
  (λ h.
      let same = ok_injective b a h.0 in
      (if_usable_iff a b (check b)).1 (same, ap check same ∙ h.1)),
)

usable_key : (secret : Text) → 32 ≤ length secret → validate_auth secret ≡ []
usable_key secret long = ground arith

-- The parsed settings are usable, and the migration's and the token command's parts of them load too.
pub record Starts (parsed : Result Settings) (c : Settings) : Type 0 where
  pub of_environment : parsed ≡ ok c
  pub usable : Usable c
  pub migrates : load_postgres (ok c.postgres) ≡ settings_of c.postgres
  pub signs : load_auth (ok c.jwt_secret) ≡ settings_of c.jwt_secret

-- Load returns settings exactly when it has parsed them and they are usable: every timeout, limit and
-- interval is in its range, the write deadline is later than the handlers', no more connections are kept
-- idle than may be open, the cache keeps its entries for a millisecond at least, the signing key has 32
-- bytes, and the three listeners have different addresses. LoadPostgres and LoadAuth then accept the
-- same settings of the database and the same key.
pub load_iff :
    (parsed : Result Settings) (c : Settings) → (load parsed ≡ settings_of c) ↔ Starts parsed c
unfolding load load_postgres load_auth
load_iff parsed c = (to, from)
  where
    to : load parsed ≡ settings_of c → Starts parsed c
    to h =
        let (of_environment, none_found) = (validated_iff validate parsed c).0 h in
        let u = (validate_iff c).0 none_found in
        record {
          of_environment = of_environment;
          usable = u;
          migrates =
              (validated_iff validate_postgres (ok c.postgres) c.postgres).1
                (refl, usable_postgres c.postgres u.postgres);
          signs =
              (validated_iff validate_auth (ok c.jwt_secret) c.jwt_secret).1
                (refl, usable_key c.jwt_secret u.signed);
        }

    from : Starts parsed c → load parsed ≡ settings_of c
    from s = (validated_iff validate parsed c).1 (s.of_environment, (validate_iff c).1 s.usable)
