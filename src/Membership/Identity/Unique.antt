-- ===== src/Membership/Identity/Unique.antt =====
-- Which daemons have the same identity (src/membership.rs).
use Prim.Native.String.{◌++◌ as ◌<>◌}
use Prim.Native.Char.{Char}
use Prim.Native.String.append
use text.Mathlib.TextLemmas.{append_cancel_right}
use mathlib.Core.Path.{subst, ap₂}
use snerd_rust.Base.{ℕ, ◌≡◌, ◌↔◌, refl, ap, sym, ◌∙◌, String, Option, arith, decimal}
use snerd_rust.Base.Decimal.RoundTrip.{Chars, IsDigit, decimal-Chars, decimal-injective}
use snerd_rust.Membership.Identity.{host_name, owner_id}

-- A character of a text of digits is a digit.
IsDigit-within : (s t : String) (c : Char) → Chars IsDigit (s <> String.◌∷◌ c t) → IsDigit c
IsDigit-within String.[] t c h = (subst (Chars IsDigit) (append.nil (String.◌∷◌ c t)) h).0
IsDigit-within (String.◌∷◌ d s) t c h =
    IsDigit-within s t c (subst (Chars IsDigit) (append.cons d s (String.◌∷◌ c t)) h).1

abbrev dashed : String → String
dashed d = String.◌∷◌ "-" d

dashed-append : (s d : String) → s <> ("-" <> d) ≡ s <> dashed d
dashed-append s d = ap (λ v. s <> v) (append.cons "-" "" d ∙ ap dashed (append.nil d))

-- The last dash splits a text that ends with digits.
last_dash :
    (u v d e : String)
    → Chars IsDigit d
    → Chars IsDigit e
    → u <> dashed d ≡ v <> dashed e
    → (u ≡ v) × (d ≡ e)
last_dash String.[] String.[] d e h k same =
    let q : dashed d ≡ dashed e = sym (append.nil (dashed d)) ∙ same ∙ append.nil (dashed e) in
    (refl, cc q)
last_dash String.[] (String.◌∷◌ b v) d e h k same =
    let q : dashed d ≡ String.◌∷◌ b (v <> dashed e) =
      sym (append.nil (dashed d)) ∙ same ∙ append.cons b v (dashed e) in
    let rest : d ≡ v <> dashed e = cc q in
    absurd (omega (arith, IsDigit-within v e "-" (subst (Chars IsDigit) rest h)))
last_dash (String.◌∷◌ a u) String.[] d e h k same =
    let q : dashed e ≡ String.◌∷◌ a (u <> dashed d) =
      sym (append.nil (dashed e)) ∙ sym same ∙ append.cons a u (dashed d) in
    let rest : e ≡ u <> dashed d = cc q in
    absurd (omega (arith, IsDigit-within u d "-" (subst (Chars IsDigit) rest k)))
last_dash (String.◌∷◌ a u) (String.◌∷◌ b v) d e h k same =
    let q : String.◌∷◌ a (u <> dashed d) ≡ String.◌∷◌ b (v <> dashed e) =
      sym (append.cons a u (dashed d)) ∙ same ∙ append.cons b v (dashed e) in
    let rest : u <> dashed d ≡ v <> dashed e = cc q in
    let (front, back) = last_dash u v d e h k rest in
    let first : a ≡ b = cc q in (ap₂ (λ x y. String.◌∷◌ x y) first front, back)

-- Two daemons have the same identity exactly if their host names and their process ids are the same, so
-- two daemons of one host never do; but daemons of two hosts where neither variable is set do if
-- their process ids are the same.
pub owner_id_iff :
    (host computer host' computer' : Option String) (pid pid' : ℕ)
    → (owner_id host computer pid ≡ owner_id host' computer' pid')
      ↔ (host_name host computer ≡ host_name host' computer') × (pid ≡ pid')
unfolding owner_id
owner_id_iff host computer host' computer' pid pid' =
    let front = host_name host computer <> "@pid" in
    let front' = host_name host' computer' <> "@pid" in
    (
      λ same.
          let (hosts, pids) =
            last_dash front front' (decimal pid) (decimal pid') (decimal-Chars pid)
              (decimal-Chars pid')
              (sym (dashed-append front (decimal pid))
                ∙ same
                ∙ dashed-append front' (decimal pid')) in
          (
            append_cancel_right (host_name host computer) (host_name host' computer') "@pid" hosts,
            decimal-injective pid pid' pids,
          ),
      λ same. ap₂ (λ h p. (h <> "@pid") <> ("-" <> decimal p)) same.0 same.1,
    )
