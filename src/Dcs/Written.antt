-- ===== src/Dcs/Written.antt =====
-- The `/sync` key is read as it was written.
use mathlib.Core.Path.{subst}
use text.Mathlib.Text.{◌==◌}
use system_design_hse_miem.Prelude.{
  String, Bool, false, List, [], ◌∷◌, All, Option, some, if◌then◌else◌, ◌≡◌, ◌≢◌, refl, sym, ap,
  ◌∙◌, arith, eq_iff, Bool-cases, inl, inr,
}
use system_design_hse_miem.Prelude.Int.{ℤ}
use system_design_hse_miem.Collections.Sorted.{sorted, sort_by, insert_sorted, comes_before}
use system_design_hse_miem.Texts.{is_comma, split, strip_all, strip, lstrip, rstrip, join}
use system_design_hse_miem.Texts.Split.{IsName, strip_all-split-join}
use system_design_hse_miem.Values.{integer, str, Fields, no_fields, field, lookup}
use system_design_hse_miem.Dcs.{parsed, Readers, text_of, is_set}
use system_design_hse_miem.Dcs.SyncKey.{
  SyncState, with_quorum, joined, quorum_of, str_to_list, voters, sync_from_node, sync_state,
}

insert_sorted-All :
    (before : String → String → Bool) (v : String) (vs : List String)
    → IsName is_comma v
    → All (IsName is_comma) vs
    → All (IsName is_comma) (insert_sorted before v vs)
unfolding insert_sorted
insert_sorted-All before v [] h hs = (h, tt)
insert_sorted-All before v (w ∷ ws) h hs = elim (Bool-cases (before w v)) [
  | inl e ↦ rw e (hs.0, insert_sorted-All before v ws h hs.1)
  | inr e ↦ rw e (h, hs)
]

sorted-All : (vs : List String) → All (IsName is_comma) vs → All (IsName is_comma) (sorted vs)
unfolding sorted sort_by
sorted-All [] h = tt
sorted-All (v ∷ vs) h = insert_sorted-All comes_before v (sorted vs) h.0 (sorted-All vs h.1)

nothing_in_blank : strip_all (split is_comma "") ≡ []
unfolding split strip_all strip rstrip lstrip
nothing_in_blank = refl

join_nil : join [] ≡ ""
unfolding join
join_nil = refl

[]≢∷ : {n : String} {ns : List String} → [] ≢ n ∷ ns
[]≢∷ e = cc

read_join :
    (ns : List String)
    → All (IsName is_comma) ns
    → (if is_set (some (join ns)) then str_to_list (join ns) else []) ≡ ns
unfolding str_to_list
read_join [] h = rw join_nil
read_join (n ∷ ns) h = elim (Bool-cases (join (n ∷ ns) == "")) [
  | inl e ↦ absurd (
      []≢∷ (
        sym nothing_in_blank
        ∙ ap (λ t. strip_all (split is_comma t)) (sym ((eq_iff (join (n ∷ ns)) "").0 e))
        ∙ strip_all-split-join n ns h))
  | inr e ↦ rw e (strip_all-split-join n ns h)
]

-- What is written for a leader is read back: the leader, the voters in the order of their names, and
-- the quorum.
pub record IsWritten {Version : Type 0} (leader : String) (names : List String) (quorum : ℤ)
    (version : Option Version) (s : SyncState Version) : Type 0 where
  pub leader_read : s.leader ≡ some leader
  pub voters_read : voters s ≡ sorted names
  pub quorum_read : s.quorum ≡ quorum
  pub version_read : s.version ≡ version

sorted_nil : [] ≡ sorted []
unfolding sorted sort_by
sorted_nil = refl

voters_joined :
    {Version : Type 0} (l : String) (ns : List String) (q : ℤ) (version : Option Version)
    → (l == "") ≡ false
    → All (IsName is_comma) ns
    → voters (record {
      version = version;
      leader = some l;
      sync_standby = text_of (joined ns);
      quorum = q;
    })
      ≡ sorted ns
unfolding voters
voters_joined l [] q version h names = rw h sorted_nil
voters_joined l (n ∷ ns) q version h names =
    rw h (read_join (sorted (n ∷ ns)) (sorted-All (n ∷ ns) names))

unfoldable fields_of : String → List String → ℤ → Fields
fields_of l ns q =
    field "leader" (str l) (field "quorum" (integer q) (field "sync_standby" (joined ns) no_fields))

quorum_of_fields :
    {Time : Type 0} (readers : Readers Time) (l : String) (ns : List String) (q : ℤ)
    → (l == "") ≡ false
    → quorum_of readers (fields_of l ns q) ≡ some q
unfolding lookup fields_of
quorum_of_fields readers l ns q h = ground (arith, h)

module _ {Version Time : Type 0} (readers : Readers Time) where
  from_fields :
      (l : String) (ns : List String) (q : ℤ) (version : Option Version)
      → (l == "") ≡ false
      → sync_from_node readers version (parsed (sync_state (some l) ns (some q))) ≡ record {
        version = version;
        leader = some l;
        sync_standby = text_of (joined ns);
        quorum = q;
      }
  unfolding lookup fields_of sync_from_node
  from_fields l ns q version h =
      ap (with_quorum readers version (fields_of l ns q)) (quorum_of_fields readers l ns q h)

  -- The `/sync` key is read back as it was written, for a leader with a name and names without a comma or white
  -- space: the leader, the voters in the order of their names, the quorum and the version.
  pub sync_from_node-IsWritten :
      (l : String) (ns : List String) (q : ℤ) (version : Option Version)
      → (l == "") ≡ false
      → All (IsName is_comma) ns
      → IsWritten l ns q version
          (sync_from_node readers version (parsed (sync_state (some l) ns (some q))))
  sync_from_node-IsWritten l ns q version h names =
      subst (IsWritten l ns q version) (sym (from_fields l ns q version h)) (record {
        leader_read = refl;
        voters_read = voters_joined l ns q version h names;
        quorum_read = refl;
        version_read = refl;
      })
