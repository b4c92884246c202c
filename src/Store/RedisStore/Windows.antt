-- ===== src/Store/RedisStore/Windows.antt =====
-- `save_window` and `load_window` (matcher/src/store.rs), and the time between them.
use code_storm.Prelude.{
  String, ◌≡◌, refl, ◌∙◌, ℕ, some, none, arith, leb, if◌then◌else◌, ap, Option,
}
use code_storm.Error.{ok, Result, err}
use code_storm.Codec.{Codec, CodecLaws}
use code_storm.Exec.Wp.{Wp, wp-bind, wp-command, wp-lift-ok}
use code_storm.Exec.Ensures.{Ensures}
use code_storm.Model.Partial.{PartialTransaction}
use code_storm.Redis.{Redis, RedisLaws}
use code_storm.Redis.View
use code_storm.Redis.View.{Keyspace, window, elapse}
use code_storm.Store.RedisStore.{save_window, load_window, parse_window}

module _ {r : Redis} {F : Type 0} (laws : RedisLaws F r) {c : Codec} (codec : CodecLaws c) where
  -- The view holds a text that reads as the window.
  abbrev pub IsSaved : PartialTransaction → Keyspace → Type 0
  IsSaved p v =
      (t : String) × (v.strings (window p.transaction_id) ≡ some t) × (c.window_from_json t ≡ ok p)

  pub save-Wp :
      (p : PartialTransaction) (v : Keyspace) {Q : Unit {0} → Keyspace → Type 0}
      → ((t : String)
          → c.window_from_json t ≡ ok p
          → Q tt (View.set_px (window p.transaction_id) t 30_000 v))
      → Wp r.view v (save_window r c p) Q (λ _. F)
  unfolding save_window
  save-Wp p v q =
      let (t, written, read) = codec.window_round_trip p in
      wp-bind _ _ (
        wp-lift-ok _ t written (
          wp-command (laws.set_px_law (window p.transaction_id) t 30_000) (λ _ _. q t read) (λ f. f)
            (λ _ f _. f)))

  parse_elapsed :
      (p : PartialTransaction) (v : Keyspace) (t : String) (d : ℕ) (a : Option String)
      → c.window_from_json t ≡ ok p
      → a
        ≡ (elapse d (View.set_px (window p.transaction_id) t 30_000 v)).strings
            (window p.transaction_id)
      → parse_window r c a ≡ ok (if leb 30_000 d then none else some p)
  unfolding parse_window elapse
  parse_elapsed p v t d a read e = ground arith

  -- A window that was saved, and what has happened to it since.
  load_saved :
      (p : PartialTransaction) (v : Keyspace) (t : String) (d : ℕ)
      → c.window_from_json t ≡ ok p
      → Wp r.view
          (elapse d (View.set_px (window p.transaction_id) t 30_000 v))
          (load_window r c p.transaction_id)
          (λ found _. found ≡ (if leb 30_000 d then none else some p))
          (λ _. F)
  unfolding load_window
  load_saved p v t d read = wp-bind _ _ (
      wp-command (laws.get_law (window p.transaction_id))
        (λ a e.
          wp-lift-ok (parse_window r c a) (if leb 30_000 d then none else some p)
            (parse_elapsed p v t d a read e) refl)
        (λ f. f) (λ _ f _. f))

  -- After a window was saved, loading it from what Redis holds after some time, unless Redis
  -- fails, gives that window if less than 30 seconds have passed, and nothing after that.
  pub load-save :
      (p : PartialTransaction) (d : ℕ) (s s' : r.Server)
      → (save_window r c p s).0 ≡ ok tt
      → r.view s' ≡ elapse d (r.view (save_window r c p s).1)
      → Ensures r.view
          (λ found _. found ≡ (if leb 30_000 d then none else some p))
          (λ _. F)
          (load_window r c p.transaction_id s')
  load-save p d s s' saved later =
      let (t, read, seen) = saved_text (save_window r c p s) saved (
        (save-Wp p (r.view s)
            {Q = λ _ w.
              (t : String) × (c.window_from_json t ≡ ok p)
              × (w ≡ View.set_px (window p.transaction_id) t 30_000 (r.view s))}
            (λ t read. (t, read, refl))).at
          s refl) in
      (load_saved p (r.view s) t d read).at s' (later ∙ ap (elapse d) seen)
    where
      saved_text :
          (x : Result (Unit {0}) × r.Server)
          → x.0 ≡ ok tt
          → Ensures r.view
              (λ _ w.
                (t : String) × (c.window_from_json t ≡ ok p)
                × (w ≡ View.set_px (window p.transaction_id) t 30_000 (r.view s)))
              (λ _. F)
              x
          → (t : String) × (c.window_from_json t ≡ ok p)
            × (r.view x.1 ≡ View.set_px (window p.transaction_id) t 30_000 (r.view s))
      saved_text (ok a, t) e h = h
      saved_text (err x, t) e h = cc
