-- ===== src/Service/Effects.antt =====
-- What a poll sends out: the successor that it publishes, and what it announces.
use dibs_reservation_sniper.Prelude.{
  ℕ, ◌+◌, ◌-◌, ◌≡◌, ◌≢◌, refl, ◌⊎◌, inl, inr, String, true, false, Option, none, some, ◌∷◌, arith,
  eq_refl, Option-cases, Bool-cases, if_keeps,
}
use dibs_reservation_sniper.Dict.{get, get-put}
use dibs_reservation_sniper.Text.{numbered-suc-ne}
use dibs_reservation_sniper.Model.{
  Watch, is_active, WatchRuntime, WindowClaim, window_id_for, WatchPollResult,
}
use dibs_reservation_sniper.Repo.{commit_window, set_marker, marker_of}
use dibs_reservation_sniper.Backoff.{saturating_outages, outage_delay}
use dibs_reservation_sniper.Service.Env.{
  World, Settings, Readings, Adapter, notify, publish, record_history,
}
use dibs_reservation_sniper.Service.Builders.{
  found_watch, booked_watch, cancelled_watch, expired_watch, attempted_watch, outage_watch,
  successor_runtime, terminal_runtime,
}
use dibs_reservation_sniper.Service.Sequence.{
  Plan, miss, found, booked, booked_replay, cancelled, noop, timed_out, slot_race, outage, broken,
}
use dibs_reservation_sniper.Service.Commit.{
  is_committed, commit, noop_result, commit_terminal, commit_successor, commit_miss, commit_outage,
}
use dibs_reservation_sniper.Service.Poll.{carry_out}
use dibs_reservation_sniper.Service.Documents.Commits.{successor_repo}
use dibs_reservation_sniper.Service.Total.{commit_stored}

-- One more delivery is published: of the window that follows the claim's cadence sequence, which is
-- another one, and the store's marker of the watch is for that window at that instant.
pub record IsScheduled {A : Type 0} (claim : WindowClaim) (w w' : World A) : Type 0 where
  pub delay : ℕ
  pub due : ℕ
  pub window : String
  pub published :
      w'.published
      ≡ record {
        watch_id = claim.watch.watch_id;
        window_id = some window;
        delay = delay;
        due_at = some due;
      }
        ∷ w.published
  pub marked :
      get w'.repo.markers claim.watch.watch_id
      ≡ some (record { watch_id = claim.watch.watch_id; window_id = window; scheduled_for = due })
  pub fresh : window ≢ window_id_for claim.watch.watch_id claim.runtime.cadence_sequence

abbrev pub Sends : {A : Type 0} → WindowClaim → World A → World A → Type 0
Sends claim w w' = (w'.published ≡ w.published) ⊎ IsScheduled claim w w'

module _ {A : Type 0} (sha1_hex : String → String) (settings : Settings) (at : Readings)
    (w : World A) (claim : WindowClaim) where
  commit_published :
      (v : Watch) (r : WatchRuntime)
      → (commit sha1_hex settings at w claim v r).0.published ≡ w.published
  unfolding commit record_history
  commit_published v r = ground arith

  terminal_published :
      (v : Watch) → (commit_terminal sha1_hex settings at w claim v).0.published ≡ w.published
  unfolding commit_terminal noop_result notify
  terminal_published v = ground (arith, commit_published v (terminal_runtime claim.runtime))

  commit_marked :
      (v : Watch) (outages t : ℕ)
      → is_active v.status ≡ true
      → is_committed
          (commit sha1_hex settings at w claim v
            (successor_runtime claim.runtime claim.watch.watch_id t outages)).1.status
        ≡ true
      → get
          (commit sha1_hex settings at w claim v
            (successor_runtime claim.runtime claim.watch.watch_id t outages)).0.repo.markers
          claim.watch.watch_id
        ≡ some (record {
          watch_id = claim.watch.watch_id;
          window_id = window_id_for claim.watch.watch_id (claim.runtime.cadence_sequence + 1);
          scheduled_for = t;
        })
  unfolding commit record_history commit_window successor_runtime set_marker marker_of
  commit_marked v outages t a e = grind (arith, get-put, eq_refl)

  successor-Sends :
      (v : Watch) (delay outages t : ℕ)
      → is_active v.status ≡ true
      → v.watch_id ≡ claim.watch.watch_id
      → Sends claim w
          (commit_successor sha1_hex settings at w claim claim.watch v
            (successor_runtime claim.runtime claim.watch.watch_id t outages)
            delay
            t).0
  unfolding commit_successor noop_result publish
  successor-Sends v delay outages t a same =
      let r = successor_runtime claim.runtime claim.watch.watch_id t outages in
      elim (Bool-cases (is_committed (commit sha1_hex settings at w claim v r).1.status)) [
        | inl e ↦
            let stored = commit_stored sha1_hex settings at w claim v r e in
            let window : r.window_id
                ≡ some (window_id_for claim.watch.watch_id (claim.runtime.cadence_sequence + 1)) =
              unfold successor_runtime in refl in
            inr (record {
              delay = delay;
              due = t;
              window = window_id_for claim.watch.watch_id (claim.runtime.cadence_sequence + 1);
              published = ground (arith, stored, commit_published v r, window, same);
              marked =
                  rw (successor_repo sha1_hex settings at w claim claim.watch v r delay t)
                    (commit_marked v outages t a e);
              fresh =
                  unfold window_id_for in
                  numbered-suc-ne claim.watch.watch_id claim.runtime.cadence_sequence;
            })
        | inr e ↦ inl (ground (arith, commit_published v r))
      ]

  miss-Sends :
      (now draw : ℕ) (error : Option String)
      → is_active claim.watch.status ≡ true
      → Sends claim w (commit_miss sha1_hex settings at w claim claim.watch now draw error).0
  unfolding commit_miss attempted_watch
  miss-Sends now draw error a =
      if_keeps (λ (x : World A × Option WatchPollResult). Sends claim w x.0) _
        (inl (terminal_published (expired_watch (attempted_watch claim.watch now error) now true)))
        (successor-Sends _ _ 0 _ a refl)

  outage-Sends :
      (now draw : ℕ) (error : String)
      → is_active claim.watch.status ≡ true
      → Sends claim w (commit_outage sha1_hex settings at w claim claim.watch now draw error).0
  unfolding commit_outage outage_watch
  outage-Sends now draw error a =
      elim (Option-cases (
        outage_delay settings.schedule settings.backoff_max
          (saturating_outages settings.schedule settings.backoff_max
            (claim.runtime.consecutive_outages + 1))
          (claim.watch.expires_at - now) draw)) [
            | inl e ↦ rw (commit_outage, e) (inl (terminal_published _))
            | inr (d, e) ↦ rw (commit_outage, e) (successor-Sends _ d _ (now + d) a refl)
          ]

-- When a claim of an active watch is carried out, at most one delivery is published, and only with
-- the store's marker: that marker names the same watch, window and instant, and the window is not
-- the one that the claim's cadence sequence names.
pub carry_out-Sends :
    {A : Type 0} (sha1_hex : String → String) (settings : Settings) (p : Adapter A) (at : Readings)
    (draw : ℕ) (w : World A) (claim : WindowClaim) (now : ℕ) (plan : Plan)
    → is_active claim.watch.status ≡ true
    → Sends claim w (carry_out sha1_hex settings p at draw w claim claim.watch now plan).0
unfolding carry_out noop_result
carry_out-Sends sha1_hex settings p at draw w claim now miss a =
    miss-Sends sha1_hex settings at w claim now draw none a
carry_out-Sends sha1_hex settings p at draw w claim now slot_race a =
    miss-Sends sha1_hex settings at w claim now draw none a
carry_out-Sends sha1_hex settings p at draw w claim now timed_out a =
    outage-Sends sha1_hex settings at w claim now draw _ a
carry_out-Sends sha1_hex settings p at draw w claim now (outage message) a =
    outage-Sends sha1_hex settings at w claim now draw _ a
carry_out-Sends sha1_hex settings p at draw w claim now noop a = inl (ground arith)
carry_out-Sends sha1_hex settings p at draw w claim now broken a = inl refl
carry_out-Sends sha1_hex settings p at draw w claim now (found slots) a =
    inl (terminal_published sha1_hex settings at w claim (found_watch claim.watch slots now))
carry_out-Sends sha1_hex settings p at draw w claim now (booked confirmation) a = inl (
    terminal_published sha1_hex settings at w claim
      (booked_watch claim.watch now confirmation true))
carry_out-Sends sha1_hex settings p at draw w claim now (booked_replay confirmation) a = inl (
    terminal_published sha1_hex settings at w claim
      (booked_watch claim.watch now confirmation false))
carry_out-Sends sha1_hex settings p at draw w claim now cancelled a =
    inl (terminal_published sha1_hex settings at w claim (cancelled_watch claim.watch now))
