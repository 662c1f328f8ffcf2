-- ===== src/Tests/Confinement.antt =====
-- internal/sftp/server.go and internal/webdav/server.go: an instance of the confinement of the two
-- file servers.
use play_bin.Base.{
  String, true, false, some, [], ◌==◌, ◌≡◌, ◌≢◌, refl, arith, eq_iff, All, Bool-cases, inl, inr,
  subst,
}
use play_bin.Base.Dict.{lookup}
use play_bin.World.{Mount, Inspect, ok, Trace, container_inspect}
use play_bin.Sftp.{remove}
use play_bin.Sftp.Session.{Script, finished, fileread, filecmd, serve_connection}
use play_bin.Webdav.Session
use play_bin.Files.{AllBelow, files_confined}
use play_bin.Tests.Sample.{sample, stopped, running}

differs : (a b : String) → (a == b) ≡ false → a ≢ b
differs a b h = ground (arith, eq_iff a b)

abbrev Sourced : Inspect → Type 0
Sourced i = All (λ (m : Mount). m.source ≢ "") i.mounts

sample-Sourced :
    (t : Trace) (name : String) (i : Inspect) → sample t (container_inspect name) ≡ ok i → Sourced i
sample-Sourced t name i e = elim (Bool-cases (name == "mc")) [
  | inl mc ↦
      let same : stopped ≡ i = ground (arith, e, mc) in
      subst Sourced same (differs "/srv/mc" "" refl, tt)
  | inr other ↦ elim (Bool-cases (name == "web")) [
    | inl web ↦
        let same : running ≡ i = ground (arith, e, other, web) in
        subst Sourced same (differs "/srv/web" "" refl, tt)
    | inr unknown ↦ absurd (ground (arith, e, other, unknown))
  ]
]

-- The client reads a file by a path that leaves the container, and removes another one.
abbrev script : Script
script =
    fileread "/mc/../web/www" (λ r. filecmd remove "/mc/data/a/../../../etc" "" (λ o. finished))

abbrev library : String → Session.Script (Unit {0})
library name = Session.call_remove_all name (λ r. Session.finished tt)

files_confined_example :
    AllBelow false sample (serve_connection "op" "pw" script sample []).1
    × AllBelow true sample
        (Session.serve_request library (some ("op", "pw")) "/dav/mc/data/../x" sample []).1
unfolding lookup
files_confined_example =
    files_confined sample (λ t. refl) sample-Sourced "op" "pw" script library (some ("op", "pw"))
      "/dav/mc/data/../x"
