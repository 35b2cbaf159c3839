-- ===== src/Dcs/Legacy.antt =====
-- The older form of the `/failover` key.
use Prim.Native.Char.{Char}
use Prim.Native.String.append
use Prim.Native.String.compare
use Prim.Native.String.{◌++◌}
use system_design_hse_miem.Prelude.{String, true, [], ◌∷◌, map, none, some, ◌≡◌, refl, ap, ◌∙◌}
use system_design_hse_miem.Texts.{is_colon, split, strip}
use system_design_hse_miem.Texts.Split.{IsSolid, split_solid, split-append, strip_solid}
use system_design_hse_miem.Values.{truth, str}
use system_design_hse_miem.Dcs.{raw, Readers}
use system_design_hse_miem.Dcs.StatusKey.{failover_from_node}

pieces :
    (leader candidate : String)
    → IsSolid is_colon leader
    → IsSolid is_colon candidate
    → map strip (split is_colon (leader ++ String.◌∷◌ ":" candidate)) ≡ leader ∷ candidate ∷ []
pieces leader candidate h k =
    ap (map strip) (
      split-append is_colon ":" leader candidate refl h
      ∙ ap (λ ps. leader ∷ ps) (split_solid is_colon candidate k))
    ∙ (rw (strip_solid is_colon leader h, strip_solid is_colon candidate k))

not_blank : (s t : String) (d : Char) → truth (str (s ++ String.◌∷◌ d t)) ≡ true
not_blank String.[] t d = rw (append.nil (String.◌∷◌ d t), compare.cons-nil d t)
not_blank (String.◌∷◌ c s) t d =
    rw (append.cons c s (String.◌∷◌ d t), compare.cons-nil c (s ++ String.◌∷◌ d t))

-- A text `leader:candidate` that is no JSON is a failover from that leader to that candidate, with
-- no time, for names without a colon or white space.
pub failover_from_node-legacy :
    {Version Time : Type 0} (readers : Readers Time) (version : Version) (leader candidate : String)
    → readers.loads (leader ++ String.◌∷◌ ":" candidate) ≡ none
    → IsSolid is_colon leader
    → IsSolid is_colon candidate
    → failover_from_node readers version (raw (leader ++ String.◌∷◌ ":" candidate))
      ≡ some (record {
        version = version;
        leader = some leader;
        candidate = some candidate;
        scheduled_at = none;
      })
unfolding failover_from_node
failover_from_node-legacy readers version leader candidate e h k =
    rw (not_blank leader candidate ":", e, pieces leader candidate h k)
