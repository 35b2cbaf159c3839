-- ===== src/Sync/Ready.antt =====
-- The nodes that a report counts as synchronous.
use text.Mathlib.Text.{◌==◌}
use system_design_hse_miem.Prelude.{
  String, Bool, true, false, not, ◌&&◌, List, [], ◌∷◌, Option, if◌then◌else◌, ◌≡◌, refl, arith,
  Bool-cases, inl, inr,
}
use system_design_hse_miem.Prelude.Int.{ℤ, pos, leb_ℤ}
use system_design_hse_miem.Collections.{Casing, has, CaseInsensitiveSet, add, contains, len}
use system_design_hse_miem.Collections.Sets.{contains_congr, contains-add}
use system_design_hse_miem.Collections.Dict.{
  CaseInsensitiveDict, set_item, has_entry, has_key, has_key-set_item, has_key_congr,
}
use system_design_hse_miem.Sync.Parser.{Ssn}
use system_design_hse_miem.Sync.Replicas.{Replica, ReplicaList}
use system_design_hse_miem.Sync.Handler.{
  Handler, Asked, SyncReport, or_empty, entries_in, handle_change, caught_up, mark,
  process_readiness, Chosen, add_if, within_lag, choose_quorum, choose_sync, promotable_first,
  choose, current_state, none_chosen,
}

module _ ⦃c : Casing⦄ where
  -- Only names of `synchronous_standby_names` are kept as ready.
  abbrev pub IsReady : Handler → Type 0
  IsReady h =
      (x : String) → has_key h.ready_replicas x ≡ true → contains h.ssn_data.members x ≡ true

  entries_in-members :
      (s : CaseInsensitiveSet) (es : List (String × ℤ)) (x : String)
      → has_entry (entries_in s es) x ≡ true
      → contains s x ≡ true
  unfolding entries_in has_entry
  entries_in-members s [] x h = absurd (cc h)
  entries_in-members s (e ∷ es) x h =
      ground (arith, h, contains_congr s e.0 x, entries_in-members s es x)

  handle_change-IsReady :
      (parse : String → Option Ssn) (asked : Asked) (h : Handler)
      → IsReady h
      → IsReady (handle_change parse asked h)
  unfolding handle_change
  handle_change-IsReady parse asked h ready =
      elim (Bool-cases (asked.setting == h.synchronous_standby_names)) [
        | inl e ↦ rw e ready
        | inr e ↦ rw e (λ x m.
            entries_in-members (or_empty (parse asked.setting)).members h.ready_replicas.entries x
              (unfold has_key in m))
      ]

  either_IsReady :
      (b : Bool) (g h : Handler) → (b ≡ true → IsReady g) → IsReady h → IsReady (if b then g else h)
  either_IsReady true g h k l = k refl
  either_IsReady false g h k l = l

  set_item-IsReady :
      (h : Handler) (name : String) (pid : ℤ)
      → contains h.ssn_data.members name ≡ true
      → IsReady h
      → IsReady (record h { ready_replicas = set_item h.ready_replicas name pid })
  set_item-IsReady h name pid m ready x k = grind (
    arith,
    m,
    k,
    has_key-set_item h.ready_replicas name x pid,
    contains_congr h.ssn_data.members name x,
    ready x,
  )

  mark-IsReady :
      (asked : Asked) (key : String → Bool) (r : Replica) (h : Handler)
      → IsReady h
      → IsReady (mark asked key r h)
  mark-IsReady asked key r h ready =
      either_IsReady
        (not (has_key h.ready_replicas r.application_name)
          && contains h.ssn_data.members r.application_name
          && caught_up asked key h.primary_flush_lsn r)
        _ h (λ e. set_item-IsReady h r.application_name r.pid (ground (arith, e)) ready) ready

  process_readiness-IsReady :
      (asked : Asked) (key : String → Bool) (rs : List Replica) (h : Handler)
      → IsReady h
      → IsReady (process_readiness asked key rs h)
  unfolding process_readiness
  process_readiness-IsReady asked key [] h ready = ready
  process_readiness-IsReady asked key (r ∷ rs) h ready =
      process_readiness-IsReady asked key rs (mark asked key r h) (mark-IsReady asked key r h ready)

  -- What is confirmed is active, and ready.
  abbrev pub IsBacked : CaseInsensitiveDict ℤ → Chosen → Type 0
  IsBacked ready ch =
      (x : String)
      → contains ch.confirmed x ≡ true
      → (contains ch.active x ≡ true) × (has_key ready x ≡ true)

  step :
      (ready : CaseInsensitiveDict ℤ) (ch : Chosen) (b : Bool) (name : String)
      → (b ≡ true → has_key ready name ≡ true)
      → IsBacked ready ch
      → IsBacked ready
          (record { confirmed = add_if b ch.confirmed name; active = add ch.active name })
  step ready ch true name r back x m = grind (
    arith,
    m,
    contains-add ch.confirmed name x,
    contains-add ch.active name x,
    back x,
    has_key_congr ready name x,
    r,
  )
  step ready ch false name r back x m = grind (arith, m, contains-add ch.active name x, back x)

  either_IsBacked :
      (ready : CaseInsensitiveDict ℤ) (b : Bool) (ch ch' : Chosen)
      → IsBacked ready ch
      → IsBacked ready ch'
      → IsBacked ready (if b then ch else ch')
  either_IsBacked ready true ch ch' k l = k
  either_IsBacked ready false ch ch' k l = l

  choose_quorum-IsBacked :
      (asked : Asked) (count max_lsn : ℤ) (ready : CaseInsensitiveDict ℤ) (rs : List Replica)
      (ch : Chosen)
      → IsBacked ready ch
      → IsBacked ready (choose_quorum asked count max_lsn ready rs ch)
  unfolding choose_quorum
  choose_quorum-IsBacked asked count max_lsn ready [] ch back = back
  choose_quorum-IsBacked asked count max_lsn ready (r ∷ rs) ch back =
      choose_quorum-IsBacked asked count max_lsn ready rs _ (
        either_IsBacked ready _ _ ch
          (step ready ch (has_key ready r.application_name) r.application_name (λ e. e) back) back)

  enough :
      (ready : CaseInsensitiveDict ℤ) (near full : Bool) (chosen on past : Chosen)
      → IsBacked ready chosen
      → IsBacked ready on
      → IsBacked ready past
      → IsBacked ready
          (elim near [ true ↦ elim full [ true ↦ chosen | false ↦ on ] | false ↦ past ])
  enough ready true true chosen on past k l m = k
  enough ready true false chosen on past k l m = l
  enough ready false full chosen on past k l m = m

  choose_sync-IsBacked :
      (asked : Asked) (count max_lsn : ℤ) (ready : CaseInsensitiveDict ℤ) (rs : List Replica)
      (ch : Chosen)
      → IsBacked ready ch
      → IsBacked ready (choose_sync asked count max_lsn ready rs ch)
  unfolding choose_sync
  choose_sync-IsBacked asked count max_lsn ready [] ch back = back
  choose_sync-IsBacked asked count max_lsn ready (r ∷ rs) ch back =
      let chosen : Chosen = record {
        confirmed =
            add_if (r.sync_state == "sync" && has_key ready r.application_name) ch.confirmed
              r.application_name;
        active = add ch.active r.application_name;
      } in
      let now : IsBacked ready chosen =
        step ready ch (r.sync_state == "sync" && has_key ready r.application_name)
          r.application_name (λ e. ground (arith, e)) back in
      enough ready (within_lag asked max_lsn r) (leb_ℤ count (len chosen.active)) _ _ _ now
        (choose_sync-IsBacked asked count max_lsn ready rs chosen now)
        (choose_sync-IsBacked asked count max_lsn ready rs ch back)

  nothing : (ready : CaseInsensitiveDict ℤ) → IsBacked ready none_chosen
  unfolding contains has
  nothing ready x m = absurd (cc m)

  choose-IsBacked :
      (asked : Asked) (list : ReplicaList) (h : Handler)
      → IsBacked h.ready_replicas (choose asked list h)
  choose-IsBacked asked list h =
      let count = if asked.supports_multiple_sync then asked.synchronous_node_count else pos 1 in
      let rs = promotable_first list.replicas in
      either_IsBacked h.ready_replicas asked.is_quorum_commit_mode _ _
        (choose_quorum-IsBacked asked count list.max_lsn h.ready_replicas rs none_chosen
          (nothing h.ready_replicas))
        (choose_sync-IsBacked asked count list.max_lsn h.ready_replicas rs none_chosen
          (nothing h.ready_replicas))

  -- A report, and the handler after it.
  pub record IsSound (rep : SyncReport) (h : Handler) : Type 0 where
    pub ready : IsReady h
    pub confirmed :
        (x : String)
        → contains rep.sync_confirmed x ≡ true
        → (contains rep.active x ≡ true)
          × (has_key h.ready_replicas x ≡ true)
          × (contains h.ssn_data.members x ≡ true)

  -- A handler that keeps only names of `synchronous_standby_names` as ready does so after a report
  -- too, and each node that the report confirms is active, ready, and one of those names.
  pub current_state-IsSound :
      (parse : String → Option Ssn) (asked : Asked) (key : String → Bool) (list : ReplicaList)
      (h : Handler)
      → IsReady h
      → let (rep, h') = current_state parse asked key list h in IsSound rep h'
  unfolding current_state
  current_state-IsSound parse asked key list h ready =
      let h' = process_readiness asked key list.replicas (handle_change parse asked h) in
      let ready' : IsReady h' =
        process_readiness-IsReady asked key list.replicas (handle_change parse asked h)
          (handle_change-IsReady parse asked h ready) in
      record {
        ready = ready';
        confirmed = λ x m.
            let (active, now) = choose-IsBacked asked list h' x m in (active, now, ready' x now);
      }
