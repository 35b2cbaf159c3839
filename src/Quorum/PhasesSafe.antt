-- ===== src/Quorum/PhasesSafe.antt =====
-- Each phase of `_generate_transitions` yields safe states only.
use system_design_hse_miem.Prelude.{Bool, true, false, ◌&&◌, ◌≡◌, refl, if◌then◌else◌}
use system_design_hse_miem.Prelude.Int.{ℤ, pos, eqb_ℤ, min_ℤ, ◌-ℤ◌}
use system_design_hse_miem.Collections.{Casing, CaseInsensitiveSet, len, ◌∩◌, nonempty}
use system_design_hse_miem.Quorum.State.{QuorumStateResolver}
use system_design_hse_miem.Quorum.Gen.{modify}
use system_design_hse_miem.Quorum.Phases.{
  voters_superset, sync_superset, finish_factor_change, handle_non_steady_cases,
  remove_within_quorum, remove_rest, remove_gone_nodes, raise_factor, add_new_nodes,
  handle_replication_factor_change, guess_confirmed, settle,
}
use system_design_hse_miem.Quorum.Published.{
  view, Tracks, Tracks-bind, Tracks-get, Tracks-when, Tracks-if, Tracks-pure, Tracks-assert,
  Tracks-modify,
}
use system_design_hse_miem.Quorum.UpdatesSafe.{quorum_update-Tracks, sync_update-Tracks}

ruleset tracks_rules = (
  Tracks-bind, Tracks-get, Tracks-when, Tracks-if, Tracks-pure, Tracks-assert, quorum_update-Tracks,
  sync_update-Tracks,
)

module _ ⦃c : Casing⦄ where
  voters_superset-Tracks : Tracks voters_superset
  unfolding voters_superset
  voters_superset-Tracks = search tracks_rules depth 12

  sync_superset-Tracks : Tracks sync_superset
  unfolding sync_superset
  sync_superset-Tracks = search tracks_rules depth 14

  finish_factor_change-Tracks : Tracks finish_factor_change
  unfolding finish_factor_change
  finish_factor_change-Tracks = search tracks_rules depth 12

  handle_non_steady_cases-Tracks : Tracks handle_non_steady_cases
  unfolding handle_non_steady_cases
  handle_non_steady_cases-Tracks =
      search
        (tracks_rules, voters_superset-Tracks, sync_superset-Tracks, finish_factor_change-Tracks)
        depth 12

  remove_within_quorum-Tracks : (nodes : CaseInsensitiveSet) → Tracks (remove_within_quorum nodes)
  unfolding remove_within_quorum
  remove_within_quorum-Tracks nodes = search tracks_rules depth 12

  remove_rest-Tracks : (nodes : CaseInsensitiveSet) → Tracks (remove_rest nodes)
  unfolding remove_rest
  remove_rest-Tracks nodes = search tracks_rules depth 12

  remove_gone_nodes-Tracks : Tracks remove_gone_nodes
  unfolding remove_gone_nodes
  remove_gone_nodes-Tracks =
      search (tracks_rules, remove_within_quorum-Tracks, remove_rest-Tracks) depth 12

  raise_factor-Tracks :
      (nodes : CaseInsensitiveSet) (wanted increase : ℤ)
      → Tracks (raise_factor nodes wanted increase)
  unfolding raise_factor
  raise_factor-Tracks nodes wanted increase = search tracks_rules depth 12

  add_new_nodes-Tracks : Tracks add_new_nodes
  unfolding add_new_nodes
  add_new_nodes-Tracks = search (tracks_rules, raise_factor-Tracks) depth 14

  handle_replication_factor_change-Tracks : Tracks handle_replication_factor_change
  unfolding handle_replication_factor_change
  handle_replication_factor_change-Tracks = search tracks_rules depth 14

  guess_keeps :
      (s : QuorumStateResolver) (b : Bool) (n : ℤ)
      → (view (if b then record s { numsync_confirmed = n } else s) ≡ view s)
        × ((if b then record s { numsync_confirmed = n } else s).leader_wanted ≡ s.leader_wanted)
  guess_keeps s true n = (refl, refl)
  guess_keeps s false n = (refl, refl)

  guess_confirmed-Tracks : Tracks (modify guess_confirmed)
  guess_confirmed-Tracks = Tracks-modify guess_confirmed λ s.
      guess_keeps s (eqb_ℤ s.numsync_confirmed (pos 0) && nonempty (s.sync ∩ s.active))
        (min_ℤ (len (s.sync ∩ s.active)) (len s.voters -ℤ s.quorum))

  pub settle-Tracks : Tracks settle
  unfolding settle
  settle-Tracks =
      search
        (
          tracks_rules, guess_confirmed-Tracks, handle_non_steady_cases-Tracks,
          remove_gone_nodes-Tracks, add_new_nodes-Tracks, handle_replication_factor_change-Tracks,
        )
        depth 12
