-- ===== src/Service/Documents/Commits.antt =====
-- A commit stores the caller's document or none, and what follows it touches nothing.
use dibs_reservation_sniper.Prelude.{ℕ, ◌≡◌, inl, inr, String, true, arith, Bool-cases}
use dibs_reservation_sniper.Model.{Watch, WatchRuntime, WindowClaim, validate_state}
use dibs_reservation_sniper.Repo.{commit_window}
use dibs_reservation_sniper.Service.Env.{notify, publish, record_history, World, Settings, Readings}
use dibs_reservation_sniper.Service.Builders.{terminal_runtime}
use dibs_reservation_sniper.Service.Commit.{
  is_committed, commit, noop_result, commit_terminal, commit_successor,
}
use dibs_reservation_sniper.Service.Documents.{StoredValid, Stores, stores_valid, window-Stores}

module _ {A : Type 0} (sha1_hex : String → String) (settings : Settings) (at : Readings) where
  commit-Stores :
      (w : World A) (claim : WindowClaim) (v : Watch) (r : WatchRuntime)
      → Stores w.repo (commit sha1_hex settings at w claim v r).0.repo claim.watch.watch_id v
  unfolding commit record_history
  commit-Stores w claim v r =
      elim (Bool-cases (
        is_committed
          (commit_window sha1_hex w.repo claim v r at.commit_at at.retain_at).1.status)) [
            | inl e ↦ rw e (window-Stores sha1_hex w.repo claim v r at.commit_at at.retain_at)
            | inr e ↦ rw e (window-Stores sha1_hex w.repo claim v r at.commit_at at.retain_at)
          ]

  -- What follows a commit does not touch the store.
  terminal_repo :
      (w : World A) (claim : WindowClaim) (v : Watch)
      → (commit_terminal sha1_hex settings at w claim v).0.repo
        ≡ (commit sha1_hex settings at w claim v (terminal_runtime claim.runtime)).0.repo
  unfolding commit_terminal noop_result notify
  terminal_repo w claim v = ground arith

  pub successor_repo :
      (w : World A) (claim : WindowClaim) (watch v : Watch) (r : WatchRuntime) (delay t : ℕ)
      → (commit_successor sha1_hex settings at w claim watch v r delay t).0.repo
        ≡ (commit sha1_hex settings at w claim v r).0.repo
  unfolding commit_successor noop_result publish
  successor_repo w claim watch v r delay t = ground arith

  pub terminal_keeps :
      (w : World A) (claim : WindowClaim) (v : Watch)
      → StoredValid w.repo
      → validate_state v ≡ true
      → v.watch_id ≡ claim.watch.watch_id
      → StoredValid (commit_terminal sha1_hex settings at w claim v).0.repo
  terminal_keeps w claim v h ok same = rw (terminal_repo w claim v) (
      stores_valid w.repo
        (commit sha1_hex settings at w claim v (terminal_runtime claim.runtime)).0.repo
        claim.watch.watch_id v (commit-Stores w claim v (terminal_runtime claim.runtime)) h ok same)

  pub successor_keeps :
      (w : World A) (claim : WindowClaim) (watch v : Watch) (r : WatchRuntime) (delay t : ℕ)
      → StoredValid w.repo
      → validate_state v ≡ true
      → v.watch_id ≡ claim.watch.watch_id
      → StoredValid (commit_successor sha1_hex settings at w claim watch v r delay t).0.repo
  successor_keeps w claim watch v r delay t h ok same =
      rw (successor_repo w claim watch v r delay t) (
        stores_valid w.repo (commit sha1_hex settings at w claim v r).0.repo claim.watch.watch_id v
          (commit-Stores w claim v r) h ok same)
