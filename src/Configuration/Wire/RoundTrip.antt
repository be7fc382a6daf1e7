-- ===== src/Configuration/Wire/RoundTrip.antt =====
-- What the coordinator packs of a server and of a configuration is what its clients unpack.
use wtf.Prelude.{
  ℕ, suc, ◌<◌, ◌^◌, ◌≤◌, ◌≡◌, refl, sym, ap, ◌∙◌, subst, Bool, true, false, some, List, [], ◌∷◌,
  ◌++◌, arith, length, All, word,
}
use mathlib.Core.Bool.{Bool-set}
use mathlib.Core.List.{append_assoc, append-nil}
use wtf.Codec.{Codec, Bytes, ◌>>=◌}
use wtf.Server.{
  Server, State, assigned, not_available, available, shutdown, killed, unlisted, is_unlisted,
}
use wtf.Server.Order.{Ascending, stable_sort-same}
use wtf.Coordinator.{Config}
use wtf.Configuration.{exists, add_server}
use wtf.Configuration.Wire.{
  Addresses, number, cast_by, to_state, pack_server, pack_servers, pack_config, unpack_server,
  unpack_servers, unpack_header, unpack_config,
}

cast_by-unlisted :
    (b : ℕ) (t : Bool) (e : is_unlisted b ≡ t) (h : is_unlisted b ≡ true)
    → cast_by b t e ≡ unlisted b h
cast_by-unlisted b true e h = ap (unlisted b) (Bool-set (is_unlisted b) true e h)
cast_by-unlisted b false e h = cc

to_state-number : (s : State) → to_state (number s) ≡ s
unfolding to_state
to_state-number assigned = refl
to_state-number not_available = refl
to_state-number available = refl
to_state-number shutdown = refl
to_state-number killed = refl
to_state-number (unlisted b h) = cast_by-unlisted b (is_unlisted b) refl h

number-lt : (s : State) → number s < 2 ^ 8
number-lt assigned = omega arith
number-lt not_available = omega arith
number-lt available = omega arith
number-lt shutdown = omega arith
number-lt killed = omega arith
number-lt (unlisted b h) = ground (arith, h)

module _ {Loc : Type 0} (c : Codec) (addresses : Addresses Loc) where
  open c use {put8, put64, get8, get64}

  pub unpack_server-pack :
      (s : Server Loc) (rest : Bytes)
      → s.id < word
      → unpack_server c addresses (pack_server c addresses s ++ rest) ≡ some (s, rest)
  unfolding unpack_server pack_server
  unpack_server-pack s rest h = simp (
    append_assoc,
    ◌>>=◌,
    c.get8-put8 (number s.state) _ (number-lt s.state),
    c.get64-put64 s.id _ h,
    addresses.get-put,
    to_state-number,
  )

  prefix-Ascending :
      (n : ℕ) (p : List (Server Loc)) (s : Server Loc) (l : List (Server Loc))
      → Ascending n (p ++ s ∷ l)
      → (exists s.id p ≡ false) × (n ≤ s.id) × Ascending n (p ++ s ∷ [])
  unfolding exists
  prefix-Ascending n [] s l a = (refl, a.0, (a.0, tt))
  prefix-Ascending n (t ∷ p) s l a =
      let (e, h, b) = prefix-Ascending (suc t.id) p s l a.1 in (ground arith, omega arith, (a.0, b))

  add_server-last :
      (p : List (Server Loc)) (s : Server Loc) (l : List (Server Loc))
      → Ascending 0 (p ++ s ∷ l)
      → add_server s p ≡ some (p ++ s ∷ [])
  unfolding add_server
  add_server-last p s l a =
      let (e, h, b) = prefix-Ascending 0 p s l a in
      rw e (ap some (stable_sort-same 0 (p ++ s ∷ []) b))

  unpack_servers-pack :
      (p l : List (Server Loc)) (rest : Bytes)
      → Ascending 0 (p ++ l)
      → All (λ (s : Server Loc). s.id < word) l
      → unpack_servers c addresses (length l) p (pack_servers c addresses l ++ rest)
        ≡ some (some (p ++ l, rest))
  unfolding unpack_servers pack_servers
  unpack_servers-pack p [] rest a w = ap (λ q. some (some (q, rest))) (sym (append-nil p))
  unpack_servers-pack p (s ∷ l) rest a w =
      let b = subst (Ascending 0) (sym (append_assoc p (s ∷ []) l)) a in
      let e =
        ap (unpack_server c addresses)
          (append_assoc (pack_server c addresses s) (pack_servers c addresses l) rest)
        ∙ unpack_server-pack s (pack_servers c addresses l ++ rest) w.0 in
      rw (e, unpack_servers)
        (rw (add_server-last p s l a, unpack_servers)
          (unpack_servers-pack (p ++ s ∷ []) l rest b w.1
            ∙ ap (λ q. some (some (q, rest))) (append_assoc p (s ∷ []) l)))

  header-pack :
      (cfg : Config Loc) (rest : Bytes)
      → cfg.cluster < word
      → cfg.version < word
      → cfg.flags < word
      → length cfg.servers < word
      → unpack_header c addresses (pack_config c addresses cfg ++ rest)
        ≡ some (
          (cfg.cluster, cfg.version, cfg.flags, length cfg.servers),
          pack_servers c addresses cfg.servers ++ rest,
        )
  unfolding unpack_header pack_config
  header-pack cfg rest h1 h2 h3 h4 = simp (
    append_assoc,
    ◌>>=◌,
    c.get64-put64 cfg.cluster _ h1,
    c.get64-put64 cfg.version _ h2,
    c.get64-put64 cfg.flags _ h3,
    c.get64-put64 (length cfg.servers) _ h4,
  )

  -- Unpacking a packed configuration whose servers stand in the order of their ids, with each number
  -- and the number of servers below 2 ^ 64, gives the configuration, and leaves the bytes behind it.
  pub unpack_config-pack :
      (cfg : Config Loc) (rest : Bytes)
      → Ascending 0 cfg.servers
      → All (λ (s : Server Loc). s.id < word) cfg.servers
      → cfg.cluster < word
      → cfg.version < word
      → cfg.flags < word
      → length cfg.servers < word
      → unpack_config c addresses (pack_config c addresses cfg ++ rest) ≡ some (some (cfg, rest))
  unfolding unpack_config
  unpack_config-pack cfg rest a w h1 h2 h3 h4 =
      rw (header-pack cfg rest h1 h2 h3 h4, unpack_config)
        (rw (unpack_servers-pack [] cfg.servers rest a w, unpack_config) refl)
