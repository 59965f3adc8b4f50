-- ===== src/Client/Tunnel/Commands.antt =====
-- What client_wg_up does to the machine: the calls that it makes, and when it reports success.
use wg_auth.Base.{
  ℕ, ◌≡◌, ◌⊎◌, refl, inl, inr, false, List, [], ◌∷◌, some, Bytes, Bool-cases, Option-cases, Rc,
  success, failure, ◌==◌, arith,
}
use wg_auth.Client.Api.{ClientConfig}
use wg_auth.Client.Tunnel.{
  allowed_tokens, link_command, addr_command, route_command, is_default_route, tunnel_of,
  add_routes, routed, addressed, configured, created, client_wg_up,
}
use wg_auth.Client.{ClientDevice, Machine}

abbrev pub Among : Bytes → List Bytes → Type 0
Among token [] = ⊥
Among token (t ∷ tokens) = (t ≡ token) ⊎ Among token tokens

module _ {K : Type 0} (m : Machine K) (ifname : Bytes) (config : ClientConfig) where
  -- Each call that the tunnel is built with keeps this: the interface is made anew and given the
  -- keys, the peer and the endpoint of the configuration, brought up, given its address, and a
  -- route for each of the allowed addresses but the default routes.
  pub record Keeps (Good : K → Type 0) : Type 0 where
    pub deletes : (k : K) → Good k → Good (m.wg_del_device ifname k)
    pub adds : (k : K) → Good k → Good (m.wg_add_device ifname k).0
    pub sets :
        (dev : ClientDevice) (k : K)
        → tunnel_of m ifname config ≡ some dev
        → Good k
        → Good (m.wg_set_device dev k).0
    pub links : (k : K) → Good k → Good (m.system (link_command ifname) k).0
    pub addresses :
        (k : K) → Good k → Good (m.system (addr_command config.client_address ifname) k).0
    pub routes :
        (token : Bytes) (k : K)
        → Among token (allowed_tokens config)
        → is_default_route token ≡ false
        → Good k
        → Good (m.system (route_command token ifname) k).0

  module _ (Good : K → Type 0) (keeps : Keeps Good) where
    add_routes-Good :
        (tokens : List Bytes) (k : K)
        → ((token : Bytes) → Among token tokens → Among token (allowed_tokens config))
        → Good k
        → Good (add_routes m ifname tokens k)
    unfolding add_routes
    add_routes-Good [] k all g = g
    add_routes-Good (t ∷ tokens) k all g = elim (Bool-cases (is_default_route t)) [
      | inl default ↦
          rw (add_routes, default) (add_routes-Good tokens k (λ token h. all token (inr h)) g)
      | inr special ↦
          rw (add_routes, special)
            (add_routes-Good tokens _ (λ token h. all token (inr h))
              (keeps.routes t k (all t (inl refl)) special g))
    ]

    routed-Good : (r : K × ℕ) → Good r.0 → Good (routed m ifname config r).0
    unfolding routed
    routed-Good (k, status) g = elim (Bool-cases (status == 0)) [
      | inl ok ↦ rw (routed, ok) (add_routes-Good (allowed_tokens config) k (λ token h. h) g)
      | inr bad ↦ rw (routed, bad) g
    ]

    addressed-Good : (r : K × ℕ) → Good r.0 → Good (addressed m ifname config r).0
    unfolding addressed
    addressed-Good (k, status) g = elim (Bool-cases (status == 0)) [
      | inl ok ↦ rw (addressed, ok) (routed-Good _ (keeps.addresses k g))
      | inr bad ↦ rw (addressed, bad) g
    ]

    configured-Good : (r : K × Rc) → Good r.0 → Good (configured m ifname config r).0
    unfolding configured
    configured-Good (k, failure) g = g
    configured-Good (k, success) g = addressed-Good _ (keeps.links k g)

    created-Good : (r : K × Rc) → Good r.0 → Good (created m ifname config r).0
    unfolding created
    created-Good (k, failure) g = g
    created-Good (k, success) g = elim (Option-cases (tunnel_of m ifname config)) [
      | inl bad ↦ rw (created, bad) g
      | inr (dev, built) ↦ rw (created, built) (configured-Good _ (keeps.sets dev k built g))
    ]

    -- The set-up of the tunnel makes no other call: on every branch, what each of these calls keeps
    -- is kept.
    pub client_wg_up_keeps : (k : K) → Good k → Good (client_wg_up m ifname config k).0
    unfolding client_wg_up
    client_wg_up_keeps k g = created-Good _ (keeps.adds _ (keeps.deletes k g))

  -- Every step before the routes has succeeded, each on what the one before left.
  pub record Built (k : K) (r : K × Rc) : Type 0 where
    pub dev : ClientDevice
    pub built : tunnel_of m ifname config ≡ some dev
    pub add_ok : (m.wg_add_device ifname (m.wg_del_device ifname k)).1 ≡ success
    pub tunnelled : K
    pub set_ok :
        m.wg_set_device dev (m.wg_add_device ifname (m.wg_del_device ifname k)).0
        ≡ (tunnelled, success)
    pub up : K
    pub link_ok : m.system (link_command ifname) tunnelled ≡ (up, 0)
    pub named : K
    pub addr_ok : m.system (addr_command config.client_address ifname) up ≡ (named, 0)
    pub done : r.0 ≡ add_routes m ifname (allowed_tokens config) named

  routed_sound :
      (r : K × ℕ)
      → (routed m ifname config r).1 ≡ success
      → (r ≡ (r.0, 0))
        × ((routed m ifname config r).0 ≡ add_routes m ifname (allowed_tokens config) r.0)
  unfolding routed
  routed_sound (k, status) e = elim (Bool-cases (status == 0)) [
    | inl ok ↦ (ground (arith, ok), rw (routed, ok) refl)
    | inr bad ↦ cc (rw (routed, bad) at e)
  ]

  addressed_sound :
      (r : K × ℕ)
      → (addressed m ifname config r).1 ≡ success
      → (r ≡ (r.0, 0))
        × (addressed m ifname config r
            ≡ routed m ifname config (m.system (addr_command config.client_address ifname) r.0))
  unfolding addressed
  addressed_sound (k, status) e = elim (Bool-cases (status == 0)) [
    | inl ok ↦ (ground (arith, ok), rw (addressed, ok) refl)
    | inr bad ↦ cc (rw (addressed, bad) at e)
  ]

  configured_sound :
      (k : K) (dev : ClientDevice) (r : K × Rc)
      → tunnel_of m ifname config ≡ some dev
      → (m.wg_add_device ifname (m.wg_del_device ifname k)).1 ≡ success
      → m.wg_set_device dev (m.wg_add_device ifname (m.wg_del_device ifname k)).0 ≡ r
      → (configured m ifname config r).1 ≡ success
      → Built k (configured m ifname config r)
  unfolding configured
  configured_sound k dev (t, failure) b a d e = cc
  configured_sound k dev (t, success) b a d e =
      let (linked, same) = addressed_sound (m.system (link_command ifname) t) e in
      let (given, done) =
        routed_sound
          (m.system (addr_command config.client_address ifname)
            (m.system (link_command ifname) t).0)
          (rw same at e) in
      record {
        dev = dev;
        built = b;
        add_ok = a;
        tunnelled = t;
        set_ok = d;
        up = _;
        link_ok = linked;
        named = _;
        addr_ok = given;
        done = rw same done;
      }

  created_sound :
      (k : K) (r : K × Rc)
      → m.wg_add_device ifname (m.wg_del_device ifname k) ≡ r
      → (created m ifname config r).1 ≡ success
      → Built k (created m ifname config r)
  unfolding created
  created_sound k (a, failure) d e = cc
  created_sound k (a, success) d e = elim (Option-cases (tunnel_of m ifname config)) [
    | inl bad ↦ cc (rw (created, bad) at e)
    | inr (dev, built) ↦
        rw (created, built)
          (configured_sound k dev (m.wg_set_device dev a) built (rw d refl) (rw d refl)
            (rw (created, built) at e))
  ]

  -- The set-up reports success only where the interface was made, the keys and the endpoint of the
  -- configuration were good, the kernel took the peer, and the commands that bring the interface up
  -- and give it its address ended with 0, each on what the step before left; then the routes have
  -- been tried.
  pub client_wg_up_sound :
      (k : K)
      → (client_wg_up m ifname config k).1 ≡ success
      → Built k (client_wg_up m ifname config k)
  unfolding client_wg_up
  client_wg_up_sound k e = created_sound k _ refl e
