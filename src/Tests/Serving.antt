-- ===== src/Tests/Serving.antt =====
-- A server with one place for a connection, and lists that a signal has read again.
use honeycow.Prelude.{
  ◌≡◌, ◌≤◌, ◌<◌, refl, Option, none, some, [], ◌∷◌, String, Text, codes, length, Text_discrete,
}
use honeycow.Exemptions.{ReadText, contents, ExemptionList}
use honeycow.SourceExemptions.{SourceExemptionList, Network}
use honeycow.Serve
use honeycow.Serve.{
  Server, Reach, here, next, arrive, finish, hang_up, serve, enter, refuse, tcp_dispatch, sighup,
}
use honeycow.Serve.Admission.{tcp_dispatch-Reach}

abbrev no_network : Text → Option Network
no_network line = none

abbrev names : ExemptionList Text
names = record { path = some "exemptions.txt"; exempt = codes "old." ∷ [] }

abbrev sources : SourceExemptionList
sources = record { path = none; v4 = []; v6 = [] }

abbrev read_text : String → ReadText
read_text path = contents (codes "new\n# no name\n")

abbrev busy : Server Text
busy = tcp_dispatch 7 (serve 1 names sources)

abbrev reached : Reach some Text_discrete no_network (serve 1 names sources) busy
reached = next here (arrive 7 (serve 1 names sources))

tcp_dispatch-Reach_example :
    (length busy.handling ≤ 1)
    × (length busy.handling ≡ 1 → tcp_dispatch 8 busy ≡ refuse 8 busy)
    × (length busy.handling < 1 → tcp_dispatch 8 busy ≡ enter 8 busy)
tcp_dispatch-Reach_example =
    tcp_dispatch-Reach some Text_discrete no_network 1 names sources busy reached 8

refused_test : (tcp_dispatch 8 busy).refused ≡ 8 ∷ []
unfolding Serve.tcp_dispatch Serve.locked Serve.refuse Serve.enter Serve.serve
refused_test = refl

abbrev reloaded : Server Text
reloaded = sighup some Text_discrete no_network read_text busy

abbrev signalled : Reach some Text_discrete no_network (serve 1 names sources) reloaded
signalled = next reached (hang_up read_text busy)
