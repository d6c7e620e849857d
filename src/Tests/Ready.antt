-- ===== src/Tests/Ready.antt =====
-- Runs and disposals on the cluster in memory, by the handlers and by the commands of the client.
use balticlsc_platform.Common.{String, [], none, ok, Exec}
use balticlsc_platform.ClusterProxy.Cluster.{claim, same}
use balticlsc_platform.ClusterProxy.Service.{ClusterProxyService, server}
use balticlsc_platform.ClusterProxy.Unused.{Unused}
use balticlsc_platform.Tests.Cluster.{rancher_over}
use balticlsc_platform.Tests.Memory.{World, memory}
use balticlsc_platform.Tests.Proxy.{quantities}
use balticlsc_platform.Tests.Startup.{proxy}

-- The cluster in memory is always open.
abbrev Always : World → Type 0
Always w = Unit

-- A claim of another batch is there.
abbrev occupied : World
occupied = record { there = λ r. same (claim "alice-b1" "other") r; volumes = λ _ _. [] }

abbrev service : ClusterProxyService World
service = server quantities memory (rancher_over World) (λ _. none) proxy

abbrev dial : String → Exec World (ClusterProxyService World)
dial addr w = (ok service, w)
