-- ===== src/Tests/Lifecycle.antt =====
-- internal/container/container.go: an engine that keeps its promises, and an instance.
use play_bin.Base.{Bool, true, [], ◌≡◌, refl}
use play_bin.Base.Dict.{lookup}
use play_bin.World.{
  Inspect, not_found, Result, ok, err, Env, container_inspect, container_stop, container_kill,
}
use play_bin.Container.{kill_action, remove_action, execute_action}
use play_bin.Container.Lifecycle.{kill, remove}
use play_bin.Container.Archive.{failed}
use play_bin.Container.Engine.{
  Status, absent, stopped, running, status, Shows, Fails, IsEngine, has_image, allowed,
}
use play_bin.Container.Engine.Refines.{execute_action_refines}
use play_bin.Tests.Sample.{sample, sample_config}

abbrev seen : Status → Result Inspect
seen absent = err not_found
seen stopped = ok (record { name = "/mc"; running = Bool.false; tty = true; mounts = [] })
seen running = ok (record { name = "/mc"; running = true; tty = true; mounts = [] })

abbrev unless_absent : Status → Result (Unit {0})
unless_absent absent = err not_found
unless_absent _ = ok tt

abbrev engine : Env
engine h (container_inspect n) = seen (status "mc" running h)
engine h (container_stop n t) = unless_absent (status "mc" running h)
engine h (container_kill n signal) = unless_absent (status "mc" running h)
engine h c = sample h c

Shows-seen : (s : Status) → Shows s (seen s)
Shows-seen absent = (not_found, refl)
Shows-seen stopped = tt
Shows-seen running = tt

Fails-absent : (s : Status) → s ≡ absent → Fails (unless_absent s)
Fails-absent absent e = tt
Fails-absent stopped e = cc
Fails-absent running e = cc

engine-IsEngine : IsEngine "mc" running engine
engine-IsEngine = record {
  shows = λ h. Shows-seen (status "mc" running h);
  stop_absent = λ h gone t. Fails-absent (status "mc" running h) gone;
  kill_absent = λ h gone signal. Fails-absent (status "mc" running h) gone;
}

lifecycle_tests :
    (status "mc" running (execute_action "mc" kill_action engine []).1 ≡ stopped)
    × (failed (execute_action "mc" remove_action engine []).0 ≡ true)
unfolding execute_action kill remove
lifecycle_tests = (refl, refl)

execute_action_refines_example :
    allowed kill_action
      (has_image (lookup "mc" sample_config.servers))
      running
      (failed (execute_action "mc" kill_action engine []).0)
      (status "mc" running (execute_action "mc" kill_action engine []).1)
    ≡ true
execute_action_refines_example =
    execute_action_refines "mc" kill_action running engine [] engine-IsEngine
