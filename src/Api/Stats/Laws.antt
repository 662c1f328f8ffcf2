-- ===== src/Api/Stats/Laws.antt =====
-- internal/api/handlers_ws.go: what `StatsHandler` sends, and to whom.

use play_bin.Base.{
  ℕ, zero, suc, String, Option, none, some, List, [], ◌∷◌, ◌==◌, if◌then◌else◌, ◌≡◌, ◌≢◌, refl,
  arith, inl, inr, Option-cases, eq_iff,
}
use play_bin.Json.{Json, Fields, no_fields, field}
use play_bin.World.{
  Memory, Trace, Env, config_get, ws_upgrade, container_stats, virtual_memory, cpu_percent,
  ws_write, decode_stats, Result, ok, err, eof,
}
use play_bin.World.Laws.{Keeps, Result-cases}
use play_bin.Api.Auth.{Request, Sessions}
use play_bin.Api.Stats.{
  stats, send_report, stats_rounds, stats_round, send_stats, set_field, os_stats,
}

abbrev pub field_of : String → Fields → Option Json
field_of k no_fields = none
field_of k (field k' v fs) = if k' == k then some v else field_of k fs

-- After the assignment, the key has the value, and the other keys have theirs.
field_of-set_field :
    (k other : String) (v : Json) (fs : Fields)
    → field_of other (set_field k v fs) ≡ (if k == other then some v else field_of other fs)
unfolding set_field
field_of-set_field k other v no_fields = refl
field_of-set_field k other v (field k' v' fs) =
    ground (arith, eq_iff k other, eq_iff k' k, eq_iff k' other, field_of-set_field k other v fs)

field_of-set_other :
    (k other : String) (v : Json) (fs : Fields)
    → other ≢ k
    → field_of other (set_field k v fs) ≡ field_of other fs
field_of-set_other k other v fs distinct =
    ground (arith, distinct, eq_iff k other, field_of-set_field k other v fs)

-- The memory that was read last, and the statistics that were decoded last.
abbrev pub memory_read : Trace → Option Memory
memory_read [] = none
memory_read ((virtual_memory, m) ∷ h) = m
memory_read (e ∷ h) = memory_read h

abbrev pub stats_read : Trace → Result Fields
stats_read [] = err eof
stats_read ((decode_stats, r) ∷ h) = r
stats_read (e ∷ h) = stats_read h

-- The message is the statistics that were decoded last, with the memory that was read last under the
-- key `os_stats`; the rest is as the engine sent it.
pub record IsReport (message : Fields) (h : Trace) : Type 0 where
  pub memory : Memory
  pub percents : List String
  pub docker_stats : Fields
  pub is_read : memory_read h ≡ some memory
  pub is_decoded : stats_read h ≡ ok docker_stats
  pub own : field_of "os_stats" message ≡ some (os_stats memory percents)
  pub others : (k : String) → k ≢ "os_stats" → field_of k message ≡ field_of k docker_stats

abbrev pub AllReports : Trace → Type 0
AllReports [] = Unit
AllReports ((ws_write message, r) ∷ h) = IsReport message h × AllReports h
AllReports (e ∷ h) = AllReports h

send_report-AllReports :
    (fs : Fields) (v : Option Memory) (c : List String) (env : Env) (h : Trace)
    → stats_read h ≡ ok fs
    → memory_read h ≡ v
    → AllReports h
    → AllReports (send_report fs v c env h).1
unfolding send_report
send_report-AllReports fs none c env h decoded read all = all
send_report-AllReports fs (some m) c env h decoded read all =
    let report : IsReport (set_field "os_stats" (os_stats m c) fs) h = record {
      memory = m;
      percents = c;
      docker_stats = fs;
      is_read = read;
      is_decoded = decoded;
      own = ground (arith, field_of-set_field "os_stats" "os_stats" (os_stats m c) fs);
      others = λ k other. field_of-set_other "os_stats" k (os_stats m c) fs other;
    } in
    ground (arith, report, all)

round-AllReports : Keeps AllReports stats_round
unfolding stats_round send_stats
round-AllReports env h all = elim (Result-cases (env h decode_stats)) [
  | inr (e, over) ↦ rw over all
  | inl (fs, more) ↦ rw more (
      send_report-AllReports fs _ _ env
        ((cpu_percent, _) ∷ (virtual_memory, _) ∷ (decode_stats, ok fs) ∷ h) refl refl all)
]

pub rounds-Keeps : (I : Trace → Type 0) → Keeps I stats_round → (n : ℕ) → Keeps I (stats_rounds n)
unfolding stats_rounds stats_round
rounds-Keeps I round zero env h i = i
rounds-Keeps I round (suc n) env h i =
    let kept = round env h i in
    elim (Option-cases (stats_round env h).0) [
      | inl more ↦ rw more (rounds-Keeps I round n env (stats_round env h).1 kept)
      | inr (ended, is_ended) ↦ rw is_ended kept
    ]

-- Every message of `StatsHandler` is the statistics that were decoded last, with the memory that was
-- read last under the key `os_stats`; the other keys are as the engine sent them.
pub stats-AllReports : (n : ℕ) (r : Request) (s : Sessions) → Keeps AllReports (stats n r s)
unfolding stats
stats-AllReports n r s env h all =
    let t : Trace = (config_get, env h config_get) ∷ h in
    let u : Trace = (ws_upgrade, env t ws_upgrade) ∷ t in
    let w : Trace = (container_stats r.id, env u (container_stats r.id)) ∷ u in
    ground (arith, all, rounds-Keeps AllReports round-AllReports n env w all)
