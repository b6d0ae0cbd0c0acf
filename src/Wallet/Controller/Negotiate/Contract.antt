-- ===== src/Wallet/Controller/Negotiate/Contract.antt =====
-- What a negotiated controller was negotiated to.
use hns_dane_browser_extensi.Prelude.{
  ℕ, ◌≡◌, ◌≤◌, refl, ap, sym, subst, ◌∙◌, Bool, true, false, none, some, ◌&&◌, ◌||◌, not, Option,
  List, length, ltb, ◌==◌, arith,
}
use hns_dane_browser_extensi.Prelude.Result.{Result, ok}
use hns_dane_browser_extensi.Prelude.Exec.{ran, bind-Ran, reject-bind_ok}
use hns_dane_browser_extensi.Wallet.Capability.{
  NegotiatedWalletServiceCapability, provider_dispatch, value_movement, has, is_subset, collect_set,
  holds_required,
}
use hns_dane_browser_extensi.Wallet.Controller.{
  ServiceError, WalletServiceController, WalletServiceProcess, Transport, Service, reading,
}
use hns_dane_browser_extensi.Wallet.Controller.Exchanges.{
  reading-bind_ok, required-bind_ok, parsed-bind_ok, violates-bind_ok, Exchanged, exchange_ok,
  update-bind_ok,
}
use hns_dane_browser_extensi.Wallet.Responses.{any_nonzero}
use hns_dane_browser_extensi.PoolStats.Literals.{ascii}
use hns_dane_browser_extensi.Prelude.Lists.{bytes_eq→eq}
use hns_dane_browser_extensi.Wallet.Controller.Negotiate.{
  WalletServiceHello, NegotiatedWalletServiceLimits, HelloFormat, capabilities_invalid,
  hello_mismatch, valid_wallet_wire_id, decodes_to, is_exact_v2, new_controller, negotiate_over,
  negotiate,
}

module _ {W : Type 0} (t : Transport W) (f : HelloFormat W)
    (admitted : List NegotiatedWalletServiceCapability) (restart_generation : ℕ) where
  -- An identifier as the service has to write it: 32 bytes in base64url, not all of them zero.
  pub record IsWireId (value : List ℕ) (size : ℕ) : Type 0 where
    pub decoded : List ℕ
    pub decodes : f.decode_base64url value ≡ some decoded
    pub sized : length decoded ≡ size
    pub nonzero : any_nonzero decoded ≡ true
    pub canonical : f.encode_base64url decoded ≡ value

  valid-IsWireId :
      (value : List ℕ) (size : ℕ) → valid_wallet_wire_id t f value size ≡ true → IsWireId value size
  unfolding valid_wallet_wire_id
  valid-IsWireId value size h = opened (f.decode_base64url value) refl h
    where
      opened :
          (o : Option (List ℕ))
          → f.decode_base64url value ≡ o
          → decodes_to t f size value o ≡ true
          → IsWireId value size
      opened none e h = cc
      opened (some decoded) e h = record {
        decoded = decoded;
        decodes = e;
        sized = ground arith;
        nonzero = ground arith;
        canonical = bytes_eq→eq _ _ (ground arith);
      }

  abbrev exact_limits : NegotiatedWalletServiceLimits
  exact_limits = record {
    outer_frame_bytes = 1_048_576;
    provider_request_bytes = 65_536;
    provider_result_bytes = 262_144;
    provider_event_bytes = 65_536;
    approval_frame_bytes = 16_384;
    approval_lifetime_ms = 90_000;
  }

  exact-eq : (l : NegotiatedWalletServiceLimits) → is_exact_v2 l ≡ true → l ≡ exact_limits
  unfolding is_exact_v2
  exact-eq l h =
      let a : l.outer_frame_bytes ≡ 1_048_576 = ground arith in
      let b : l.provider_request_bytes ≡ 65_536 = ground arith in
      let c : l.provider_result_bytes ≡ 262_144 = ground arith in
      let d : l.provider_event_bytes ≡ 65_536 = ground arith in
      let e : l.approval_frame_bytes ≡ 16_384 = ground arith in
      let g : l.approval_lifetime_ms ≡ 90_000 = ground arith in
      λ i. record {
        outer_frame_bytes = a i;
        provider_request_bytes = b i;
        provider_result_bytes = c i;
        provider_event_bytes = d i;
        approval_frame_bytes = e i;
        approval_lifetime_ms = g i;
      }

  -- The hello that the host accepts for its session.
  pub record Agrees (host_session_id : List ℕ) (h : WalletServiceHello) : Type 0 where
    pub version : h.protocol_version ≡ 2
    pub platform : h.platform ≡ ascii "chromiumNativeHost"
    pub host : h.host_session_id ≡ host_session_id
    pub generation : h.restart_generation ≡ restart_generation
    pub session : IsWireId h.service_session_id 32
    pub limits : h.limits ≡ exact_limits
    pub named : 1 ≤ length h.capabilities
    pub bounded : length h.capabilities ≤ 64

  matching-Agrees :
      (process : Option WalletServiceProcess) (host_session_id : List ℕ) (h : WalletServiceHello)
      → hello_mismatch t f restart_generation
          (new_controller t f process host_session_id restart_generation)
          h
        ≡ false
      → Agrees host_session_id h
  unfolding hello_mismatch
  matching-Agrees process host_session_id h e = record {
    version = ground arith;
    platform = bytes_eq→eq _ _ (ground arith);
    host = bytes_eq→eq _ _ (ground arith);
    generation = ground arith;
    session = valid-IsWireId _ _ (ground arith);
    limits = exact-eq _ (ground arith);
    named = ground arith;
    bounded = ground arith;
  }

  abbrev fresh : Option WalletServiceProcess → List ℕ → W → Service W
  fresh process host_session_id w = record {
    controller = new_controller t f process host_session_id restart_generation;
    world = w;
  }

  -- The exchange of the hellos, and the controller that comes of it: a new one with the service's
  -- session and capabilities.
  pub record IsNegotiatedOver (process : Option WalletServiceProcess) (host_session_id : List ℕ)
      (w w' : W) (c : WalletServiceController) : Type 0 where
    pub payload : List ℕ
    pub bytes : List ℕ
    pub hello : WalletServiceHello
    pub sent : f.encode_hello host_session_id restart_generation ≡ some payload
    pub exchanged :
        Exchanged t payload bytes
          (fresh process host_session_id w)
          (fresh process host_session_id w')
    pub received : f.decode_hello bytes ≡ some hello
    pub agrees : Agrees host_session_id hello
    pub is_new : c ≡ record {
      process = process;
      host_session_id = host_session_id;
      service_session_id = hello.service_session_id;
      restart_generation = restart_generation;
      next_host_sequence = 1;
      next_service_sequence = 1;
      capabilities = collect_set hello.capabilities;
      selected_active_wallet = none;
      selected_hns_account = none;
      poisoned = false;
    }
    pub within : is_subset c.capabilities admitted ≡ true
    pub complete : holds_required c.capabilities ≡ true
    pub value_dispatched :
        has c.capabilities value_movement ≡ true → has c.capabilities provider_dispatch ≡ true

  -- The pipes made nonblocking, and the identifier drawn, before that.
  pub record IsNegotiated (process : Option WalletServiceProcess) (w w' : W)
      (c : WalletServiceController) : Type 0 where
    pub host_session_id : List ℕ
    pub reader_set : W
    pub writer_set : W
    pub identified : W
    pub reader : f.set_nonblocking_reader w ≡ (ok tt, reader_set)
    pub writer : f.set_nonblocking_writer reader_set ≡ (ok tt, writer_set)
    pub drawn : t.random_wallet_wire_id 32 writer_set ≡ (ok host_session_id, identified)
    pub negotiated : IsNegotiatedOver process host_session_id identified w' c

  capabilities-valid :
      (named set : List NegotiatedWalletServiceCapability)
      → capabilities_invalid admitted named set ≡ false
      → (is_subset set admitted ≡ true)
        × (holds_required set ≡ true)
        × (has set value_movement ≡ true → has set provider_dispatch ≡ true)
  unfolding capabilities_invalid
  capabilities-valid named set h =
      parts (length set == 0) (ltb 64 (length set)) (length set == length named)
        (is_subset set admitted) (holds_required set) (has set value_movement)
        (has set provider_dispatch) h
    where
      parts :
          (a b d s r v p : Bool)
          → (a || b || not d || not s || not r || (v && not p)) ≡ false
          → (s ≡ true) × (r ≡ true) × (v ≡ true → p ≡ true)
      parts true b d s r v p h = cc
      parts false true d s r v p h = cc
      parts false false false s r v p h = cc
      parts false false true false r v p h = cc
      parts false false true true false v p h = cc
      parts false false true true true true true h = (refl, refl, λ k. refl)
      parts false false true true true true false h = cc
      parts false false true true true false p h = (refl, refl, λ k. cc)

  ok_eq :
      (r : Result ServiceError WalletServiceController) (a b : WalletServiceController)
      → r ≡ ok a
      → r ≡ ok b
      → a ≡ b
  ok_eq r a b h k = cc

  abbrev agreed : WalletServiceController → WalletServiceHello → WalletServiceController
  agreed new hello = record new {
    service_session_id = hello.service_session_id;
    capabilities = collect_set hello.capabilities;
  }

  negotiate_over-IsNegotiatedOver :
      (process : Option WalletServiceProcess) (host_session_id : List ℕ) (w : W)
      (c : WalletServiceController) (u : Service W)
      → negotiate_over t f admitted restart_generation (fresh process host_session_id w) ≡ (ok c, u)
      → IsNegotiatedOver process host_session_id w u.world c
  unfolding negotiate_over reading
  negotiate_over-IsNegotiatedOver process host_session_id w c u h =
      let s = fresh process host_session_id w in
      let h1 = reading-bind_ok {b = c} {u = u} _ _ s h in
      let (payload, sent, a) = required-bind_ok {b = c} {u = u} _ _ _ s h1 in
      elim (bind-Ran _ _ s a) [
        | ran bytes v x l ↦
            let exchanged = exchange_ok t payload s x in
            let s2 = fresh process host_session_id v.world in
            let (hello, received, d) =
              parsed-bind_ok {b = c} {u = u} _ _ s2 (rw exchanged.kept at l) in
            let d1 = reading-bind_ok {b = c} {u = u} _ _ s2 d in
            let (matches, e) = violates-bind_ok {b = c} {u = u} _ _ s2 d1 in
            let (valid, g) = violates-bind_ok {b = c} {u = u} _ _ s2 e in
            let g1 = update-bind_ok {b = c} {u = u} _ _ s2 g in
            let there : v.world ≡ u.world = ap (λ p. p.1.world) g1 in
            let made : agreed (new_controller t f process host_session_id restart_generation) hello
                ≡ c =
              ok_eq _ _ c refl (ap (λ p. p.0) g1) in
            let k = ap (λ d. d.capabilities) made in
            let (within, complete, dispatched) =
              capabilities-valid hello.capabilities (collect_set hello.capabilities) valid in
            record {
              payload = payload;
              bytes = bytes;
              hello = hello;
              sent = sent;
              exchanged = record {
                healthy = refl;
                timed = exchanged.timed;
                written = exchanged.written;
                within = exchanged.within;
                writes = exchanged.writes;
                reads = exchanged.reads ∙ ap (λ w. (ok bytes, w)) there;
                kept = refl;
              };
              received = received;
              agrees = matching-Agrees process host_session_id hello matches;
              is_new = sym made;
              within = rw (← k) within;
              complete = rw (← k) complete;
              value_dispatched = rw (← k) dispatched;
            }
      ]

  -- A negotiation that succeeds had a nonzero generation, and drew the host's session identifier. On
  -- a controller of that session and generation it wrote the host's hello under a deadline, and read
  -- a hello of the protocol's version and platform, the same host session and generation, a session
  -- identifier that encodes 32 bytes, not all zero, the exact limits, and 1 to 64 capabilities. The
  -- controller that it returns is a new one, with both sequences at one, nothing selected and no
  -- poison, and with the session identifier and the capabilities of that hello: they are within those
  -- admitted, hold all that a read session requires, and have value movement only with provider
  -- dispatch.
  pub negotiate-IsNegotiated :
      (process : Option WalletServiceProcess) (timeout_is_zero : Bool) (w w' : W)
      (c : WalletServiceController)
      → negotiate t f process admitted restart_generation timeout_is_zero w ≡ (ok c, w')
      → ((restart_generation == 0) ≡ false) × IsNegotiated process w w' c
  unfolding negotiate
  negotiate-IsNegotiated process timeout_is_zero w w' c h =
      let (valid, a) = reject-bind_ok _ _ _ w h in
      elim (bind-Ran _ _ w a) [
        | ran x w1 e b ↦ elim (bind-Ran _ _ w1 b) [
          | ran y w2 g d ↦ elim (bind-Ran _ _ w2 d) [
            | ran host_session_id w3 k l ↦
                let over =
                  negotiate_over-IsNegotiatedOver process host_session_id w3 c _
                    (whole _ c (ap (λ p. p.0) l)) in
                (
                  ground arith,
                  record {
                    host_session_id = host_session_id;
                    reader_set = w1;
                    writer_set = w2;
                    identified = w3;
                    reader = e;
                    writer = g;
                    drawn = k;
                    negotiated =
                        subst (λ w. IsNegotiatedOver process host_session_id w3 w c)
                          (ap (λ p. p.1) l) over;
                  },
                )
          ]
        ]
      ]
    where
      whole :
          (r : Result ServiceError WalletServiceController × Service W)
          (c : WalletServiceController)
          → r.0 ≡ ok c
          → r ≡ (ok c, r.1)
      whole (r, u) c e = ap (λ x. (x, u)) e
