-- ===== src/Configuration/Delivery.antt =====
-- From the coordinator to a daemon or a client: what `config_get` answers with is what they unpack.
use wtf.Prelude.{ℕ, ◌<◌, ◌≡◌, ◌≢◌, some, ◌++◌, length, All, word}
use wtf.Codec.{Codec, Bytes}
use wtf.Server.{Server}
use wtf.Coordinator.{Coordinator, Env, Net}
use wtf.Coordinator.Conditions.{Counts}
use wtf.Coordinator.Safety.{current}
use wtf.Coordinator.Handlers.{configuration}
use wtf.Coordinator.Calls.{config_get_call, perform, config_get-current}
use wtf.Coordinator.Reachable.{Reachable, Reachable-Inv}
use wtf.Coordinator.Servers.{Reachable-Ascending}
use wtf.Configuration.Wire.{Addresses, pack_config, unpack_config}
use wtf.Configuration.Wire.RoundTrip.{unpack_config-pack}

-- If conditions count broadcasts, then in every reachable state of a coordinator with a cluster, whose
-- ids, flags and counters are below 2 ^ 64, the call of `config_get` changes nothing and answers with a
-- configuration; who unpacks its wire form gets the cluster, version, flags and servers of the state.
pub unpack-config_get :
    {Ctx Loc : Type 0} (env : Env Ctx) (net : Net Loc) (value : ℕ → Ctx → ℕ)
    (law : Counts env value) (c : Codec) (addresses : Addresses Loc) (rest : Bytes)
    (s : Coordinator Ctx Loc)
    → Reachable env net value s
    → s.cluster ≢ 0
    → All (λ (srv : Server Loc). srv.id < word) s.servers
    → s.cluster < word
    → s.version < word
    → s.flags < word
    → length s.servers < word
    → (perform env net config_get_call s ≡ some (configuration (current s), s))
      × (unpack_config c addresses (pack_config c addresses (current s) ++ rest)
          ≡ some (some (current s, rest)))
unpack-config_get env net value law c addresses rest s reach ne w h1 h2 h3 h4 =
    let (v, cached) = Reachable-Inv env net value law s reach in
    (
      config_get-current env value law net s v cached ne,
      unpack_config-pack c addresses (current s) rest (Reachable-Ascending env net value s reach) w
          h1 h2 h3 h4,
    )
