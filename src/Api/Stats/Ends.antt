-- ===== src/Api/Stats/Ends.antt =====
-- internal/api/handlers_ws.go: the end of the loop of `StatsHandler`.
use play_bin.Base.{
  ℕ, zero, suc, ◌+◌, ◌≤◌, ◌<◌, some, ◌∷◌, length, ◌≡◌, ◌≢◌, inl, inr, arith, ap, ◌∙◌, Option-cases,
}
use play_bin.Json.{Fields}
use play_bin.World.{
  ok, err, Error, Trace, Env, config_get, container_stats, ws_upgrade, decode_stats,
}
use play_bin.World.Laws.{Result-cases}
use play_bin.Api.Auth.{Request, Sessions}
use play_bin.Api.Stats.{stats, unfinished, send_stats, send_report, stats_round, stats_rounds}

send_stats-ends :
    (fs : Fields) (env : Env) (h : Trace)
    → ((send_stats fs env h).0 ≢ some unfinished) × (length h < length (send_stats fs env h).1)
unfolding send_stats send_report
send_stats-ends fs env h = ground arith

round-ends :
    (env : Env) (h : Trace)
    → ((stats_round env h).0 ≢ some unfinished) × (length h < length (stats_round env h).1)
unfolding stats_round
round-ends env h = elim (Result-cases (env h decode_stats)) [
  | inl (fs, more) ↦ rw more (
      let (goes, longer) = send_stats-ends fs env ((decode_stats, ok fs) ∷ h) in
      (goes, omega (arith, longer)))
  | inr (e, gone) ↦ rw gone (ground arith)
]

module _ (env : Env) (limit : ℕ)
    (is_over : (t : Trace) → limit ≤ length t → (e : Error) × (env t decode_stats ≡ err e)) where
  last : (n : ℕ) (h : Trace) → limit ≤ length h → (stats_rounds (suc n) env h).0 ≢ unfinished
  unfolding stats_rounds stats_round
  last n h late = let (e, over) = is_over h late in rw over ground arith

  stats_rounds-ends :
      (n : ℕ) (h : Trace) → limit ≤ length h + n → (stats_rounds (suc n) env h).0 ≢ unfinished
  unfolding stats_rounds stats_round
  stats_rounds-ends zero h late = last zero h (omega (arith, late))
  stats_rounds-ends (suc n) h late =
      let (goes, longer) = round-ends env h in
      elim (Option-cases (stats_round env h).0) [
        | inl more ↦
            rw more (stats_rounds-ends n (stats_round env h).1 (omega (arith, late, longer)))
        | inr (end, is_end) ↦ rw is_end λ same. goes (is_end ∙ ap some same)
      ]

  -- If the statistics of the container cannot be decoded any more after a number of calls, at the
  -- latest, `StatsHandler` ends within that number of rounds and one more, whatever else it is
  -- answered.
  pub stats-ends :
      (r : Request) (sessions : Sessions) (h : Trace)
      → (stats (suc limit) r sessions env h).0 ≢ unfinished
  unfolding stats
  stats-ends r sessions h =
      let t : Trace = (config_get, env h config_get) ∷ h in
      let u : Trace = (ws_upgrade, env t ws_upgrade) ∷ t in
      let w : Trace = (container_stats r.id, env u (container_stats r.id)) ∷ u in
      ground (arith, stats_rounds-ends limit w (omega arith))
