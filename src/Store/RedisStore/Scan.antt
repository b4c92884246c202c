-- ===== src/Store/RedisStore/Scan.antt =====
-- `load_all_windows` (matcher/src/store.rs): the pages of the scan, and what is read of them.
use mathlib.Core.Option
use mathlib.Core.List.{append-nil}
use code_storm.Exec.{pure, ◌>>=◌}
use code_storm.Redis.View.{Key, IsNext, Keyspace, window}
use code_storm.Prelude.{
  length, ◌<◌, ◌≤◌, zero, suc, subst, if◌then◌else◌, ◌==◌, concat, Uuid, String, ℕ, ◌≡◌, refl, ap,
  inl, inr, Option, none, some, List, [], ◌∷◌, ◌++◌, map, arith, and_then,
}
use code_storm.Error.{Result, ok, err}
use code_storm.Codec.{Codec}
use code_storm.Exec.Wp.{Wp, wp-bind, wp-command, wp-pure, wp-weaken, wp-attempt}
use code_storm.Model.Partial.{PartialTransaction}
use code_storm.Redis.{Redis, RedisLaws}
use code_storm.Store.RedisStore.{
  push_parsed_window, push_read, read_windows, scan_from, load_all_windows,
}
use code_storm.Store.RedisStore.Stored.{parsed, push, Loaded, Loaded-append, Loaded-push}

module _ {r : Redis} {F : Type 0} (laws : RedisLaws F r) (c : Codec) where
  push_read-eq :
      (a : Option String) (windows : List PartialTransaction)
      → push_read r c (ok a) windows
        ≡ push c (and_then a (λ t. parsed c (c.window_from_json t))) windows
  push_read-eq none windows = refl
  push_read-eq (some t) windows = one (c.window_from_json t)
    where
      one :
          (o : Result PartialTransaction)
          → push_parsed_window r c o windows ≡ push c (parsed c o) windows
      one (ok p) = refl
      one (err e) = refl

  read_windows-Wp :
      (txs : List Uuid) (v : Keyspace) {E : Keyspace → Type 0}
      → Wp r.view v
          (read_windows r c (map (λ tx. window tx) txs))
          (λ windows w. (w ≡ v) × Loaded c F v txs windows)
          E
  unfolding read_windows
  read_windows-Wp [] v = wp-pure [] (refl, record { stored = tt; complete = inr refl })
  read_windows-Wp (tx ∷ txs) v = wp-bind _ _ (
      wp-attempt _ (
        wp-command (laws.get_law (window tx))
          (λ a e. wp-bind _ _ (
            wp-weaken (read_windows-Wp txs v)
              (λ windows w (same, h).
                wp-pure _ (same, rw (push_read-eq a windows, e) (Loaded-push c tx txs windows h)))
              (λ _ x. x)))
          (λ f e. wp-bind _ _ (
            wp-weaken (read_windows-Wp txs v)
              (λ windows w (same, h).
                wp-pure _ (same, record { stored = h.stored; complete = inl f }))
              (λ _ x. x)))
          (λ a f p e. wp-bind _ _ (
            wp-weaken (read_windows-Wp txs v)
              (λ windows w (same, h).
                wp-pure _ (same, record { stored = h.stored; complete = inl f }))
              (λ _ x. x)))))

  -- The loop has come to its end, with these windows.
  abbrev Scanned : Keyspace → List (List Uuid) → Option (List PartialTransaction) → Type 0
  Scanned v pages o =
      (windows : List PartialTransaction) × (o ≡ some windows) × Loaded c F v (concat pages) windows

  page-Wp :
      (keys : List Key) (page : List Uuid) (v : Keyspace)
      → keys ≡ map (λ tx. window tx) page
      → Wp r.view v
          (read_windows r c keys)
          (λ windows w. (w ≡ v) × Loaded c F v page windows)
          (λ _. F)
  page-Wp keys page v e = rw e (read_windows-Wp page v)

  -- The loop from a cursor that has pages left, with enough fuel for them.
  abbrev Scans : Keyspace → ℕ → Type 0
  Scans v fuel =
      (cursor : ℕ)
      → 0 < length (laws.scan_pages v cursor)
      → length (laws.scan_pages v cursor) ≤ fuel
      → Wp r.view v (scan_from r c fuel cursor)
          (λ o w. (w ≡ v) × Scanned v (laws.scan_pages v cursor) o) (λ _. F)

  next-Wp :
      (fuel next : ℕ) (page : List Uuid) (rest : List (List Uuid)) (v : Keyspace)
      (windows : List PartialTransaction)
      → Loaded c F v page windows
      → IsNext (laws.scan_pages v) next rest
      → length rest ≤ fuel
      → Scans v fuel
      → Wp r.view v
          (if next == 0
            then pure (some windows)
            else (scan_from r c fuel next >>= λ rest.
                pure (Option.map (λ more. windows ++ more) rest)))
          (λ o w. (w ≡ v) × Scanned v (page ∷ rest) o)
          (λ _. F)
  next-Wp fuel next page [] v windows h last enough ih =
      rw last (wp-pure _ (refl, (windows, refl, rw (append-nil page) h)))
  next-Wp fuel next page (p ∷ rest) v windows h (more, e) enough ih = rw more (
      wp-bind _ _ (
        wp-weaken (ih next (rw e (omega arith)) (rw e enough))
          (λ o w (same, (others, got, h')). wp-pure _ (
            same,
            (
              windows ++ others,
              ap (Option.map (λ more. windows ++ more)) got,
              Loaded-append c page (concat (p ∷ rest)) windows others h
                  (subst (λ l. Loaded c F v (concat l) others) e h'),
            ),
          ))
          (λ _ f. f)))

  scan_from-Wp : (fuel : ℕ) (v : Keyspace) → Scans v fuel
  unfolding scan_from
  scan_from-Wp zero v cursor some_left enough = absurd (omega arith)
  scan_from-Wp (suc fuel) v cursor some_left enough = wp-bind _ _ (
      wp-command (laws.scan_law cursor)
        (λ (next, keys) p. wp-bind _ _ (
          wp-weaken (page-Wp keys p.page v p.names)
            (λ windows w (same, h).
              rw (same, p.first)
                (next-Wp fuel next p.page p.rest v windows h p.more
                  (omega (arith, ap length p.first)) (scan_from-Wp fuel v)))
            (λ _ f. f)))
        (λ f. f) (λ _ f _. f))

  -- Where the scan has at least one page and no more than the fuel, `load_all_windows`, unless
  -- Redis fails, ends before the fuel does and changes nothing; the windows that it returns are
  -- all stored, and, unless a read has failed, they are those stored of the listed transactions,
  -- page after page, without the keys whose text cannot be read.
  pub load_all_windows-Loaded :
      (fuel : ℕ) (v : Keyspace)
      → 0 < length (laws.scan_pages v 0)
      → length (laws.scan_pages v 0) ≤ fuel
      → Wp r.view v
          (load_all_windows r c fuel)
          (λ o w.
            (w ≡ v)
            × ((windows : List PartialTransaction) × (o ≡ some windows)
                × Loaded c F v (concat (laws.scan_pages v 0)) windows))
          (λ _. F)
  unfolding load_all_windows
  load_all_windows-Loaded fuel v some_left enough = scan_from-Wp fuel v 0 some_left enough
