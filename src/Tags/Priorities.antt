-- ===== src/Tags/Priorities.antt =====
-- How the boolean tags and the priorities agree, and that publishing the tags loses nothing.
use system_design_hse_miem.Prelude.{
  String, true, false, none, ◌≡◌, refl, arith, ◌⊎◌, Bool-cases, inl, inr,
}
use system_design_hse_miem.Prelude.Int.{pos, ◌≤ℤ◌, leb_ℤ}
use system_design_hse_miem.Values.{null, Fields, Parse, truth, lookup, has_field}
use system_design_hse_miem.Values.Lookup.{IsDict, lookup_missing, lookup-filter}
use system_design_hse_miem.Tags.{
  is_switch, keeps_tag, filter_tags, priority_tag, bool_tag, nofailover, failover_priority, nosync,
  sync_priority,
}

module _ (parse : Parse) where
  -- A node whose boolean tag is on has no positive priority.
  pub bool_tag-priority_tag :
      (bool_name priority_name : String) (tags : Fields)
      → bool_tag parse bool_name priority_name tags ≡ true
      → priority_tag parse bool_name priority_name tags ≤ℤ pos 0
  unfolding bool_tag priority_tag
  bool_tag-priority_tag bool_name priority_name tags h = ground arith

  -- Where the boolean tag is not set, it is on exactly if the priority is not positive.
  pub bool_tag_unset :
      (bool_name priority_name : String) (tags : Fields)
      → lookup bool_name tags ≡ null
      → bool_tag parse bool_name priority_name tags
        ≡ leb_ℤ (priority_tag parse bool_name priority_name tags) (pos 0)
  unfolding bool_tag priority_tag
  bool_tag_unset bool_name priority_name tags h = ground (arith, h)

  -- The four answers about failover and synchronous replication.
  pub record SameAnswers (tags tags' : Fields) : Type 0 where
    pub nofailover_same : nofailover parse tags' ≡ nofailover parse tags
    pub failover_priority_same : failover_priority parse tags' ≡ failover_priority parse tags
    pub nosync_same : nosync parse tags' ≡ nosync parse tags
    pub sync_priority_same : sync_priority parse tags' ≡ sync_priority parse tags

  -- A reading that does not tell a missing tag from one that is off, unless the priority is set.
  bool_tag_dropped :
      (b p : String) (tags tags' : Fields)
      → parse.parse_int null none ≡ none
      → lookup p tags' ≡ lookup p tags
      → (lookup b tags' ≡ lookup b tags)
        ⊎ ((lookup b tags' ≡ null) × (truth (lookup b tags) ≡ false) × (lookup p tags ≡ null))
      → (bool_tag parse b p tags' ≡ bool_tag parse b p tags)
        × (priority_tag parse b p tags' ≡ priority_tag parse b p tags)
  unfolding bool_tag priority_tag
  bool_tag_dropped b p tags tags' h e (inl same) = ground (arith, e, same)
  bool_tag_dropped b p tags tags' h e (inr off) = ground (arith, e, off, h)

  kept_field :
      (k : String) (tags : Fields)
      → IsDict tags
      → is_switch k ≡ false
      → lookup k (filter_tags tags) ≡ lookup k tags
  unfolding filter_tags
  kept_field k tags d h = grind (arith, h, lookup-filter (keeps_tag tags) k tags d)

  dropped_field :
      (b p : String) (tags : Fields)
      → IsDict tags
      → (has_field p tags ≡ true → keeps_tag tags b (lookup b tags) ≡ true)
      → (truth (lookup b tags) ≡ true → keeps_tag tags b (lookup b tags) ≡ true)
      → (lookup b (filter_tags tags) ≡ lookup b tags)
        ⊎ ((lookup b (filter_tags tags) ≡ null)
            × (truth (lookup b tags) ≡ false)
            × (lookup p tags ≡ null))
  unfolding filter_tags
  dropped_field b p tags d set on = elim (Bool-cases (keeps_tag tags b (lookup b tags))) [
    | inl e ↦ inl (grind (arith, e, lookup-filter (keeps_tag tags) b tags d))
    | inr e ↦ inr (
      grind (arith, e, lookup-filter (keeps_tag tags) b tags d),
      ground (arith, e, on),
      lookup_missing p tags (ground (arith, e, set)),
    )
  ]

  -- The tags that a node publishes give the same answers about failover and synchronous
  -- replication as the tags of its configuration, whose names are distinct, if `parse_int` finds
  -- no number in a missing tag.
  pub filter_tags-SameAnswers :
      (tags : Fields)
      → parse.parse_int null none ≡ none
      → IsDict tags
      → SameAnswers tags (filter_tags tags)
  unfolding nofailover failover_priority nosync sync_priority
  filter_tags-SameAnswers tags h d =
      let fo =
        bool_tag_dropped "nofailover" "failover_priority" tags (filter_tags tags) h
          (kept_field "failover_priority" tags d refl)
          (dropped_field "nofailover" "failover_priority" tags d (λ s. ground (arith, s))
            (λ s. ground (arith, s))) in
      let sy =
        bool_tag_dropped "nosync" "sync_priority" tags (filter_tags tags) h
          (kept_field "sync_priority" tags d refl)
          (dropped_field "nosync" "sync_priority" tags d (λ s. ground (arith, s))
            (λ s. ground (arith, s))) in
      record {
        nofailover_same = fo.0;
        failover_priority_same = fo.1;
        nosync_same = sy.0;
        sync_priority_same = sy.1;
      }
