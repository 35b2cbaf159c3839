-- ===== src/Ha/Asked.antt =====
-- The answers come from the nodes that are asked, in any order.
use mathlib.Core.Path.{subst}
use mathlib.Core.List.{Permᴰ}
use system_design_hse_miem.Prelude.{
  String, false, List, [], ◌∷◌, map, Option, some, ◌≡◌, refl, sym, ap, ◌∙◌, arith, All,
  Option-cases, inl, inr,
}
use system_design_hse_miem.Collections.{Casing, same, has}
use system_design_hse_miem.Collections.Members.{IsNodup, same_comm}
use system_design_hse_miem.Values.{Fields}
use system_design_hse_miem.Dcs.Members.{Member}
use system_design_hse_miem.Ha.Answers.{MemberStatus, from_api_response, fetch_node_status}

abbrev pub member_names : List Member → List String
member_names ms = map (λ m. m.name) ms

pub All-perm {ℓ κ} :
    {E : Type ℓ} (Q : E → Type κ) (xs ys : List E) → Permᴰ xs ys → All Q xs → All Q ys
All-perm Q _ _ Permᴰ.nil h = tt
All-perm Q _ _ (Permᴰ.cons e p) h = (subst Q e h.0, All-perm Q _ _ p h.1)
All-perm Q _ _ (Permᴰ.swap e f) h = (subst Q f h.1.0, (subst Q e h.0, h.1.1))
All-perm Q _ _ (Permᴰ.trans p q) h = All-perm Q _ _ q (All-perm Q _ _ p h)

module _ ⦃c : Casing⦄ where
  pub has-perm :
      (xs ys : List Member) (x : String)
      → Permᴰ xs ys
      → has (member_names xs) x ≡ has (member_names ys) x
  unfolding has
  has-perm _ _ x Permᴰ.nil = refl
  has-perm _ _ x (Permᴰ.cons e p) = ground (arith, ap (λ m. same m.name x) e, has-perm _ _ x p)
  has-perm _ _ x (Permᴰ.swap e f) =
      ground (arith, ap (λ m. same m.name x) e, ap (λ m. same m.name x) f)
  has-perm _ _ x (Permᴰ.trans p q) = has-perm _ _ x p ∙ has-perm _ _ x q

  swap-IsNodup :
      (m n : Member) (ms : List Member)
      → IsNodup (member_names (m ∷ n ∷ ms))
      → IsNodup (member_names (n ∷ m ∷ ms))
  unfolding has
  swap-IsNodup m n ms (first, (second, d)) =
      (ground (arith, same_comm m.name n.name), (ground arith, d))

  pub perm-IsNodup :
      (xs ys : List Member) → Permᴰ xs ys → IsNodup (member_names xs) → IsNodup (member_names ys)
  perm-IsNodup _ _ Permᴰ.nil d = tt
  perm-IsNodup _ _ (Permᴰ.cons {b = b} {l₁ = xs} {l₂ = ys} e p) d = (
    sym (has-perm xs ys b.name p) ∙ subst (λ m. has (member_names xs) m.name ≡ false) e d.0,
    perm-IsNodup xs ys p d.1,
  )
  perm-IsNodup _ _ (Permᴰ.swap {a = a} {b = b} {a' = m} {l = l} e f) d =
      subst (λ n. IsNodup (member_names (m ∷ n ∷ l))) e
        (subst (λ n. IsNodup (member_names (n ∷ a ∷ l))) f (swap-IsNodup a b l d))
  perm-IsNodup _ _ (Permᴰ.trans p q) d = perm-IsNodup _ _ q (perm-IsNodup _ _ p d)

from_api_response-member :
    (m : Member) (json : Fields) (st : MemberStatus)
    → from_api_response m json ≡ some st
    → st.member ≡ m
unfolding from_api_response
from_api_response-member m json st h = ground (arith, h)

pub fetch_node_status-member :
    (request : Member → Option Fields) (m : Member) → (fetch_node_status request m).member ≡ m
unfolding fetch_node_status
fetch_node_status-member request m = elim (Option-cases (request m)) [
  | inl e ↦ rw (e, fetch_node_status) refl
  | inr (json, e) ↦ elim (Option-cases (from_api_response m json)) [
    | inl f ↦ rw (e, f, fetch_node_status) refl
    | inr (st, f) ↦ rw (e, f, fetch_node_status) (from_api_response-member m json st f)
  ]
]

-- A statement on each node that is asked, as one on each answer.
pub All-fetched {κ} :
    (Q : Member → MemberStatus → Type κ) (request : Member → Option Fields) (ms : List Member)
    → All (λ m. Q m (fetch_node_status request m)) ms
    → All (λ st. Q st.member st) (map (fetch_node_status request) ms)
All-fetched Q request [] h = tt
All-fetched Q request (m ∷ ms) h = (
  subst (λ n. Q n (fetch_node_status request m)) (sym (fetch_node_status-member request m)) h.0,
  All-fetched Q request ms h.1,
)

pub names_of_answers :
    (request : Member → Option Fields) (ms : List Member)
    → map (λ st. st.member.name) (map (fetch_node_status request) ms) ≡ member_names ms
names_of_answers request [] = refl
names_of_answers request (m ∷ ms) =
    cc (ap (λ n. n.name) (fetch_node_status-member request m), names_of_answers request ms)
