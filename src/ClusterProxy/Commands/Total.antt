-- ===== src/ClusterProxy/Commands/Total.antt =====
-- The command line client against the server of the cluster proxy, on a cluster that is ready.
use balticlsc_platform.Common.Dict
use balticlsc_platform.Common.Dict.{Dict}
use balticlsc_platform.Rancher.Client.{Client}
use balticlsc_platform.ClusterProxy.Kube.{Kube}
use balticlsc_platform.ClusterProxy.Unused.{Unused}
use balticlsc_platform.ClusterProxy.Commands.{Ending}
use balticlsc_platform.ClusterProxy.Commands
