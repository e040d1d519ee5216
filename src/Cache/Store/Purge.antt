-- ===== src/Cache/Store/Purge.antt =====
-- What `purge_expired` deletes, and what it leaves to be loaded.
use rust_dns.Base.{
  ℕ, ◌≡◌, refl, sym, ◌∙◌, inl, inr, true, none, some, List, [], ◌∷◌, In, here, there, In-cons,
  not-In-nil, arith, Bool-cases, some-inj, is_empty, false, length, ◌≤◌, ◌↔◌, Option-cases,
}
use rust_dns.Bytes.{Bytes}
use rust_dns.Text.{equal_iff}
use rust_dns.Cache.Redb.{Redb}
use rust_dns.Cache.Store.{
  is_expired, collect_expired, remove_all, delete_keys, expired_keys, purge_expired, ◌>>=◌,
  valid_entry, Item, read_all_valid,
}
use rust_dns.Cache.Store.Write.{>>=-eq-some}
use rust_dns.Cache.Store.Load.{Row, read_all_valid-row, read_all_valid-In}

-- A row of the key was read, and it is expired.
pub record Outdated (now : ℕ) (rows : List Row) (k : Bytes) : Type 0 where
  pub val_bytes : Bytes
  pub row : In (some (k, val_bytes)) rows
  pub late : is_expired now val_bytes ≡ true

collect_expired-Outdated :
    (now : ℕ) (rows : List Row) (keys : List Bytes) (k : Bytes)
    → collect_expired now rows ≡ some keys
    → In k keys
    → Outdated now rows k
unfolding collect_expired
collect_expired-Outdated now [] keys k h m = absurd (not-In-nil (rw (sym (some-inj h)) at m))
collect_expired-Outdated now (none ∷ rows) keys k h m = absurd (cc)
collect_expired-Outdated now (some (j, v) ∷ rows) keys k h m =
    let (rest, read, pushed) = >>=-eq-some (collect_expired now rows) _ h in
    let further : In k rest → Outdated now (some (j, v) ∷ rows) k = λ n.
      let o = collect_expired-Outdated now rows rest k read n in
      record { val_bytes = o.val_bytes; row = there o.row; late = o.late } in
    elim (Bool-cases (is_expired now v)) [
      | inl late ↦
          let same : j ∷ rest ≡ keys = ground (arith, late, pushed) in
          elim (In-cons (rw (sym same) at m)) [
            | inl p ↦ record { val_bytes = v; row = here (rw p); late = late }
            | inr n ↦ further n
          ]
      | inr live ↦
          let same : rest ≡ keys = ground (arith, live, pushed) in further (rw (sym same) at m)
    ]

Outdated-collect_expired :
    (now : ℕ) (rows : List Row) (keys : List Bytes) (k v : Bytes)
    → collect_expired now rows ≡ some keys
    → In (some (k, v)) rows
    → is_expired now v ≡ true
    → In k keys
unfolding collect_expired
Outdated-collect_expired now [] keys k v h m late = absurd (not-In-nil m)
Outdated-collect_expired now (none ∷ rows) keys k v h m late = absurd (cc)
Outdated-collect_expired now (some (j, w) ∷ rows) keys k v h m late =
    let (rest, read, pushed) = >>=-eq-some (collect_expired now rows) _ h in
    elim (In-cons m) [
      | inl p ↦
          let same : k ∷ rest ≡ keys = ground (arith, late, pushed, p) in rw (← same) (here refl)
      | inr n ↦
          let ih : In k rest = Outdated-collect_expired now rows rest k v read n late in
          elim (Bool-cases (is_expired now w)) [
            | inl late' ↦
                let same : j ∷ rest ≡ keys = ground (arith, late', pushed) in rw (← same) (there ih)
            | inr live ↦ let same : rest ≡ keys = ground (arith, live, pushed) in rw (← same) ih
          ]
    ]

collect_expired-read :
    (now : ℕ) (rows : List Row) (keys : List Bytes)
    → collect_expired now rows ≡ some keys
    → ¬ In none rows
unfolding collect_expired
collect_expired-read now [] keys h m = not-In-nil m
collect_expired-read now (none ∷ rows) keys h m = cc
collect_expired-read now (some (k, v) ∷ rows) keys h m =
    let (rest, read, pushed) = >>=-eq-some (collect_expired now rows) _ h in
    elim (In-cons m) [ inl p ↦ cc | inr n ↦ collect_expired-read now rows rest read n ]

no_member : (keys : List Bytes) (k : Bytes) → is_empty keys ≡ true → ¬ In k keys
no_member [] k e m = not-In-nil m
no_member (j ∷ keys) k e m = cc

module _ (redb : Redb) where
  remove_all-get :
      (keys : List Bytes) (t t' : redb.Txn) (j : Bytes)
      → remove_all redb keys t ≡ some t'
      → ((In j keys → redb.get_txn t' j ≡ none)
          × (¬ In j keys → redb.get_txn t' j ≡ redb.get_txn t j))
        × (redb.table_open t' ≡ redb.table_open t)
        × (redb.get_txn t j ≡ none → redb.get_txn t' j ≡ none)
  unfolding remove_all
  remove_all-get [] t t' j h = ((λ m. absurd (not-In-nil m), λ n. cc), cc, λ e. cc)
  remove_all-get (k ∷ keys) t t' j h =
      let (u, removed, rest) = >>=-eq-some (redb.remove k t) (remove_all redb keys) h in
      let ((gone, kept), table, absent) = remove_all-get keys u t' j rest in
      let step = redb.get-remove k t u j removed in
      let hit : j ≡ k → redb.get_txn u j ≡ none = λ e. ground (arith, step, equal_iff k j) in
      let miss : ¬ (j ≡ k) → redb.get_txn u j ≡ redb.get_txn t j =
        λ n. ground (arith, step, equal_iff k j) in
      (
        (
          λ m. elim (In-cons m) [ inl e ↦ absent (hit e) | inr n ↦ gone n ],
          λ n. kept (λ m. n (there m)) ∙ miss (λ e. n (here e)),
        ),
        table ∙ redb.table_open-remove k t u removed,
        λ e. absent (ground (arith, step, e)),
      )

  delete_keys-get :
      (keys : List Bytes) (d d' : redb.Db) (j : Bytes)
      → delete_keys redb keys d ≡ some d'
      → (In j keys → redb.get d' j ≡ none)
        × (¬ In j keys → redb.get d' j ≡ redb.get d j)
        × (redb.has_table d' ≡ true)
  unfolding delete_keys
  delete_keys-get keys d d' j h =
      let (w, began, h1) = >>=-eq-some (redb.begin_write d) _ h in
      let (t, opened, h2) = >>=-eq-some (redb.open_table w) _ h1 in
      let (t', removed, committed) = >>=-eq-some (remove_all redb keys t) redb.commit h2 in
      let ((gone, kept), table, _) = remove_all-get keys t t' j removed in
      let before = redb.get-open_table w t j opened ∙ redb.get-begin_write d w j began in
      let after = redb.get-commit t' d' j committed in
      (
        λ m. after ∙ gone m,
        λ n. after ∙ kept n ∙ before,
        redb.has_table-commit t' d' committed ∙ table ∙ redb.open_table-opens w t opened,
      )

  -- The keys of the expired rows, and no others.
  expired_keys-In :
      (now : ℕ) (d : redb.Db) (keys : List Bytes)
      → expired_keys redb now d ≡ some keys
      → (redb.has_table d ≡ true)
        × ((k v : Bytes) → redb.get d k ≡ some v → is_expired now v ≡ true → In k keys)
        × ((k : Bytes)
            → In k keys
            → (v : Bytes) × (redb.get d k ≡ some v) × (is_expired now v ≡ true))
  unfolding expired_keys
  expired_keys-In now d keys h =
      let (r, began, h1) = >>=-eq-some (redb.begin_read d) _ h in
      let same : r ≡ d = redb.read_same d r began in
      elim (Bool-cases (redb.has_table d)) [
        | inl table ↦
            let h2 : (redb.iter d >>= collect_expired now) ≡ some keys = rw (same, table) at h1 in
            let (rows, read, collected) = >>=-eq-some (redb.iter d) (collect_expired now) h2 in
            (
              table,
              λ k v held late. elim (redb.iter_complete d rows k v read held) [
                | inl m ↦ Outdated-collect_expired now rows keys k v collected m late
                | inr failed ↦ absurd (collect_expired-read now rows keys collected failed)
              ],
              λ k m.
                  let o = collect_expired-Outdated now rows keys k collected m in
                  (o.val_bytes, redb.iter_sound d rows k o.val_bytes read o.row, o.late),
            )
        | inr empty ↦ absurd (ground (arith, h1, same, empty))
      ]

  -- What a purge makes of each key.
  purge_expired-keys :
      (now : ℕ) (between : redb.Db → redb.Db) (d d' : redb.Db) (n : ℕ)
      → purge_expired redb now between d ≡ some (d', n)
      → (keys : List Bytes) × (expired_keys redb now d ≡ some keys)
        × ((j : Bytes)
            → (In j keys → redb.get d' j ≡ none)
              × (¬ In j keys → redb.get d' j ≡ redb.get (between d) j))
        × ((redb.has_table (between d) ≡ true) → redb.has_table d' ≡ true)
  unfolding purge_expired
  purge_expired-keys now between d d' n h =
      let (keys, read, h1) = >>=-eq-some (expired_keys redb now d) _ h in
      elim (Bool-cases (is_empty keys)) [
        | inl none_expired ↦
            let same : between d ≡ d' = ground (arith, none_expired, h1) in
            (
              keys,
              read,
              λ j. (λ m. absurd (no_member keys j none_expired m), λ _. rw same),
              λ e. rw (← same) e,
            )
        | inr some_expired ↦
            let h2 : (delete_keys redb keys (between d) >>= λ e. some (e, length keys))
                ≡ some (d', n) =
              rw some_expired at h1 in
            let (e, deleted, ends) = >>=-eq-some (delete_keys redb keys (between d)) _ h2 in
            let same : e ≡ d' = ground (arith, ends) in
            (
              keys,
              read,
              λ j.
                  let (gone, kept, _) = delete_keys-get keys (between d) e j deleted in
                  (λ m. rw (← same) (gone m), λ m. rw (← same) (kept m)),
              λ _. rw (← same) (delete_keys-get keys (between d) e [] deleted).2,
            )
      ]

  -- After a purge that succeeds, a key whose row was expired when the purge read it holds nothing,
  -- whatever other tasks have written in between; a key whose row was not expired holds what they
  -- made of it.
  pub purge_expired-get :
      (now : ℕ) (between : redb.Db → redb.Db) (d d' : redb.Db) (n : ℕ) (k v : Bytes)
      → purge_expired redb now between d ≡ some (d', n)
      → redb.get d k ≡ some v
      → (is_expired now v ≡ true → redb.get d' k ≡ none)
        × (is_expired now v ≡ false → redb.get d' k ≡ redb.get (between d) k)
  purge_expired-get now between d d' n k v h held =
      let (keys, read, deleted, _) = purge_expired-keys now between d d' n h in
      let (_, listed, member) = expired_keys-In now d keys read in
      (
        λ late. (deleted k).0 (listed k v held late),
        λ live.
            (deleted k).1
              λ m. let (w, held', late) = member k m in ground (arith, held, held', live, late),
      )

  -- A row that is expired is worth nothing from then on.
  expired-valid_entry :
      (now later : ℕ) (k v : Bytes)
      → now ≤ later
      → is_expired now v ≡ true
      → valid_entry later k v ≡ none
  unfolding valid_entry is_expired
  expired-valid_entry now later k v le late = ground arith

  -- With no other task at work, a purge that succeeds changes nothing of what is loaded at that
  -- time or later.
  pub read_all_valid-purge_expired :
      (now later : ℕ) (d d' : redb.Db) (n : ℕ) (out out' : List Item) (e : Item)
      → now ≤ later
      → purge_expired redb now (λ x. x) d ≡ some (d', n)
      → read_all_valid redb later d ≡ some out
      → read_all_valid redb later d' ≡ some out'
      → In e out ↔ In e out'
  read_all_valid-purge_expired now later d d' n out out' e le h before after =
      let (keys, read, deleted, stays) = purge_expired-keys now (λ x. x) d d' n h in
      let (table, listed, member) = expired_keys-In now d keys read in
      (
        λ m.
            let (k, v, held, worth) = read_all_valid-row redb later d out e before m in
            elim (Bool-cases (is_expired now v)) [
              | inl late ↦ absurd (ground (arith, worth, expired-valid_entry now later k v le late))
              | inr live ↦
                  let kept = (purge_expired-get now (λ x. x) d d' n k v h held).1 live in
                  read_all_valid-In redb later d' out' e k v after (stays table) (kept ∙ held) worth
            ],
        λ m.
            let (k, v, held, worth) = read_all_valid-row redb later d' out' e after m in
            elim (Option-cases (redb.get d k)) [
              | inl absent ↦
                  let out_of_list : ¬ In k keys = λ i. let (w, there_is, _) = member k i in cc in
                  absurd (ground (arith, (deleted k).1 out_of_list, absent, held))
              | inr (w, there_is) ↦ elim (Bool-cases (is_expired now w)) [
                | inl late ↦ absurd (
                    ground
                      (arith, (purge_expired-get now (λ x. x) d d' n k w h there_is).0 late, held))
                | inr live ↦
                    let kept = (purge_expired-get now (λ x. x) d d' n k w h there_is).1 live in
                    read_all_valid-In redb later d out e k v before table (sym kept ∙ held) worth
              ]
            ],
      )
