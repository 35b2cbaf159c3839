-- ===== src/Bank/Reads.antt =====
-- The four read endpoints: when they answer from the cache, and what they keep there.
use mathlib.Core.Path.{subst}
use text.Mathlib.TextPositions.{eq_refl}
use system_design_hse_miem.Prelude.{
  ℕ, ◌<◌, String, true, List, [], ◌∷◌, Option, none, some, ◌≡◌, sym, ap, ◌∙◌, arith, then_branch,
}
use system_design_hse_miem.Prelude.Int.{ℤ}
use system_design_hse_miem.Bank.Services.{performed, Codec, IsCodec, Redis, Database, is_listed}
use system_design_hse_miem.Bank.Money.{Amount}
use system_design_hse_miem.Bank.Transfers.{finish-deleted}
use system_design_hse_miem.Bank.Replies.{
  Reply, ok, http_error, crash, cache, db, Page, Receipt, Runtime, balance_key, summary_key,
}
use system_design_hse_miem.Bank.Handlers.{
  State, invalidated, attempt, transfer, find_summary, find_balance, get_account_summary,
  get_balance, remember, cache_aside, answer, truthy, from_cache,
}

pub ok-injective : {A : Type 0} {a b : A} → ok a ≡ ok b → a ≡ b
ok-injective e = cc

from_cache-source :
    {A : Type 0} (o : Option A) (t : ℤ) (page : Page A)
    → from_cache o t ≡ ok page
    → page.source ≡ cache
from_cache-source none t page h = absurd (cc h)
from_cache-source (some a) t page h = ap (λ (p : Page _). p.source) (sym (ok-injective h))

module _ {Float Activity : Type 0} (run : Runtime Float Activity) (redis : Redis)
    (base : Database Float Activity) where
  module _ {A : Type 0} (codec : Codec A) (key : String) (seconds : ℕ) (long : 0 < seconds)
      (faithful : IsCodec codec) where
    truthy-write :
        (o : Option String) (a : A) → o ≡ some (codec.write a) → truthy o ≡ some (codec.write a)
    truthy-write o a e = rw (e, faithful.write_nonempty a)

    kept :
        (a : A) (r : redis.Server)
        → truthy (redis.get key (redis.setex key seconds (codec.write a) r)) ≡ some (codec.write a)
    kept a r =
        truthy-write (redis.get key (redis.setex key seconds (codec.write a) r)) a
          (redis.get-setex key key (codec.write a) seconds r long ∙ (rw (eq_refl key)))

    -- What a miss has kept is answered from the cache, whatever the database holds by then.
    pub again :
        (a : A) (w : State run redis base) (later : Reply A) (d : base.Data)
        → let r = redis.setex key seconds (codec.write a) w.server in
          cache_aside run redis base codec key seconds later (record { server = r; data_base = d })
          ≡ (
            ok (record { source = cache; ttl_remaining = redis.ttl key r; body = a }),
            record { server = r; data_base = d },
          )
    again a w later d = rw (kept a w.server, faithful.read-write a)

    answer-again :
        (o : Option String) (found later : Reply A) (w : State run redis base) (page : Page A)
        (d : base.Data)
        → (answer run redis base codec key seconds o found w).0 ≡ ok page
        → page.source ≡ db
        → let r = (answer run redis base codec key seconds o found w).1.server in
          cache_aside run redis base codec key seconds later (record { server = r; data_base = d })
          ≡ (
            ok (record { source = cache; ttl_remaining = redis.ttl key r; body = page.body }),
            record { server = r; data_base = d },
          )
    answer-again (some v) found later w page d h e =
        absurd (cc (e, from_cache-source (codec.read v) (redis.ttl key w.server) page h))
    answer-again none (ok a) later w page d h e =
        let r = redis.setex key seconds (codec.write a) w.server in
        let body : a ≡ page.body = ap (λ (p : Page A). p.body) (ok-injective h) in
        again a w later d
        ∙ ap
            (λ b. (
              ok (record { source = cache; ttl_remaining = redis.ttl key r; body = b }),
              record { server = r; data_base = d },
            ))
            body
    answer-again none (http_error n t) later w page d h e = absurd (cc h)
    answer-again none (crash t) later w page d h e = absurd (cc h)

  -- A key that a transfer deletes is answered from the database.
  deleted :
      {A : Type 0} (codec : Codec A) (key : String) (seconds : ℕ) (found : Reply A)
      (ks : List String) (r r' : redis.Server) (d : base.Data)
      → is_listed key ks ≡ true
      → redis.delete ks r ≡ performed r'
      → cache_aside run redis base codec key seconds found (record { server = r'; data_base = d })
        ≡ remember run redis base codec key seconds found (record { server = r'; data_base = d })
  deleted codec key seconds found ks r r' d h e = rw (redis.get-delete key ks r r' e, h)

  -- Once GET balance has answered from the database, and floats are read back as they were
  -- written, the next one answers the same balance from the cache and changes nothing, whatever
  -- the database holds by then, until the key expires.
  pub get_balance-again :
      (i : ℤ) (w : State run redis base) (page : Page Float) (d : base.Data)
      → IsCodec run.floats
      → (get_balance run redis base i w).0 ≡ ok page
      → page.source ≡ db
      → let r = (get_balance run redis base i w).1.server in
        get_balance run redis base i (record { server = r; data_base = d }) ≡ (
          ok (record {
            source = cache;
            ttl_remaining = redis.ttl (balance_key run i) r;
            body = page.body;
          }),
          record { server = r; data_base = d },
        )
  get_balance-again i w page d faithful h e =
      unfold get_balance in
      answer-again run.floats (balance_key run i) 30 (omega arith) faithful
        (truthy (redis.get (balance_key run i) w.server))
        (find_balance run redis base i w.data_base) (find_balance run redis base i d) w page d
        (unfold get_balance in h) e

  pub listed_keys :
      (a b c e : String)
      → (is_listed a (a ∷ b ∷ c ∷ e ∷ []) ≡ true)
        × (is_listed b (a ∷ b ∷ c ∷ e ∷ []) ≡ true)
        × (is_listed c (a ∷ b ∷ c ∷ e ∷ []) ≡ true)
        × (is_listed e (a ∷ b ∷ c ∷ e ∷ []) ≡ true)
  listed_keys a b c e = ground (arith, eq_refl a, eq_refl b, eq_refl c, eq_refl e)

  -- The balance and the summary of an account, read without the cache.
  pub record ReadsThrough (i : ℤ) (w : State run redis base) : Type 0 where
    pub balance :
        get_balance run redis base i w
        ≡ remember run redis base run.floats
            (balance_key run i)
            30
            (find_balance run redis base i w.data_base)
            w
    pub summary :
        get_account_summary run redis base i w
        ≡ remember run redis base run.summaries
            (summary_key run i)
            300
            (find_summary run redis base i w.data_base)
            w

  reads_through :
      (i : ℤ) (ks : List String) (r r' : redis.Server) (d : base.Data)
      → is_listed (balance_key run i) ks ≡ true
      → is_listed (summary_key run i) ks ≡ true
      → redis.delete ks r ≡ performed r'
      → ReadsThrough i (record { server = r'; data_base = d })
  reads_through i ks r r' d hb hs e = record {
    balance =
        unfold get_balance in
        deleted run.floats (balance_key run i) 30 (find_balance run redis base i d) ks r r' d hb e;
    summary =
        unfold get_account_summary in
        deleted run.summaries (summary_key run i) 300 (find_summary run redis base i d) ks r r' d hs
          e;
  }

  -- Right after a confirmed transfer the balances and the summaries of both accounts are read from
  -- the database, whatever the cache held.
  pub transfer-ReadsThrough :
      (sender receiver : ℤ) (amount : Amount) (w : State run redis base) (receipt : Receipt)
      → (transfer run redis base sender receiver amount w).0 ≡ ok receipt
      → let w' = (transfer run redis base sender receiver amount w).1 in
        ReadsThrough sender w' × ReadsThrough receiver w'
  transfer-ReadsThrough sender receiver amount w receipt h =
      unfold transfer in
      let out = attempt run redis base sender receiver amount w.data_base in
      let ks = invalidated run redis base sender receiver in
      let all =
        listed_keys (balance_key run sender) (balance_key run receiver) (summary_key run sender)
          (summary_key run receiver) in
      let (r, e, same, fine) =
        finish-deleted run redis base sender receiver amount out w receipt (unfold transfer in h) in
      subst (λ v. ReadsThrough sender v × ReadsThrough receiver v) (sym same)
        (
          reads_through sender ks w.server r out.1 all.0 all.2 e,
          reads_through receiver ks w.server r out.1 all.1 all.3 e,
        )

  -- The key of the sender's balance is gone.
  pub transfer-deletes :
      (sender receiver : ℤ) (amount : Amount) (w : State run redis base) (receipt : Receipt)
      → (transfer run redis base sender receiver amount w).0 ≡ ok receipt
      → redis.get
          (balance_key run sender)
          (transfer run redis base sender receiver amount w).1.server
        ≡ none
  unfolding transfer
  transfer-deletes sender receiver amount w receipt h =
      let out = attempt run redis base sender receiver amount w.data_base in
      let ks = invalidated run redis base sender receiver in
      let all =
        listed_keys (balance_key run sender) (balance_key run receiver) (summary_key run sender)
          (summary_key run receiver) in
      let (r, e, same, fine) =
        finish-deleted run redis base sender receiver amount out w receipt h in
      ap (λ (v : State run redis base). redis.get (balance_key run sender) v.server) same
      ∙ redis.get-delete (balance_key run sender) ks w.server r e
      ∙ then_branch (is_listed (balance_key run sender) ks) _ _ all.0
