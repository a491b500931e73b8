-- ===== src/Gatekeeping/Clients/Pumps.antt =====
-- The pumps of online devices (gatekeeping/net.go): they run as long as the device is online.
use masc_server.Prelude.{
  ℕ, suc, ◌<◌, String, ◌≡◌, refl, ◌≢◌, ◌∙◌, sym, ap, Option, none, some, List, [], ◌∷◌, arith, Dict,
  lookup, insert, delete, lookup-insert, lookup-delete, string_key, eq_iff, All, All-mono, ◌⊎◌, inl,
  inr,
}
use masc_server.Errors.{GoError, nil, native, masc}
use masc_server.Errors.Results.{Result, Done, ok, failed}
use masc_server.Gatekeeping.{
  GatekeeperStore, GateDevice, Protected, NetGatekeeper, Unmarshal, handle_hello_from_new_client,
  new_net_gatekeeper, wake_up_and_protect,
}
use masc_server.Gatekeeping.Clients.{
  Arrival, done, closed, raw, log_and_send_error_message, after_welcome, introduce, let_in, greeted,
  accept_round, farewell, tell_protected, seen_off, see_off, say_goodbye_to_client,
}

-- The online devices, the number of pumps that were started and those that were shut down: each
-- online device has pumps that were started and run, and no two devices share theirs.
pub record Live (online : Dict String GateDevice) (started : ℕ) (stopped : List ℕ) : Type 0 where
  pub begun : (c : String) (d : GateDevice) → lookup c online ≡ some d → d.pumps < started
  pub runs :
      (c : String) (d : GateDevice) → lookup c online ≡ some d → All (λ k. k ≢ d.pumps) stopped
  pub own :
      (c c' : String) (d d' : GateDevice)
      → lookup c online ≡ some d
      → lookup c' online ≡ some d'
      → d.pumps ≡ d'.pumps
      → c ≡ c'
  pub past : All (λ k. k < started) stopped

apart : (k : ℕ) (l : List ℕ) (n : ℕ) → All (λ i. i < n) l → n ≡ k → All (λ i. i ≢ k) l
apart k [] n h e = tt
apart k (i ∷ l) n h e = (λ q. omega (arith, h.0, e, q), apart k l n h.1 e)

let_in-Live :
    (online : Dict String GateDevice) (started : ℕ) (stopped : List ℕ) (client : String)
    (d : GateDevice)
    → d.pumps ≡ started
    → Live online started stopped
    → Live (insert client d online) (suc started) stopped
let_in-Live online started stopped client d e h = record {
  begun = λ c g q. ground (arith, lookup-insert client c d online, h.begun c g);
  runs = λ c g q. elim (which c g q) [
    | inl same ↦
        apart g.pumps stopped started h.past (sym e ∙ ap (λ (x : GateDevice). x.pumps) same)
    | inr before ↦ h.runs c g before
  ];
  own = λ c c' g g' q q' p. ground (
    arith,
    lookup-insert client c d online,
    lookup-insert client c' d online,
    h.own c c' g g',
    h.begun c g,
    h.begun c' g',
    eq_iff client c,
    eq_iff client c',
  );
  past = All-mono (λ k lt. omega (arith, lt)) stopped h.past;
}
  where
    which :
        (c : String) (g : GateDevice)
        → lookup c (insert client d online) ≡ some g
        → (d ≡ g) ⊎ (lookup c online ≡ some g)
    which c g q = ground (arith, lookup-insert client c d online)

leave-Live :
    (online : Dict String GateDevice) (started : ℕ) (stopped : List ℕ) (client : String)
    (d : GateDevice)
    → lookup client online ≡ some d
    → Live online started stopped
    → Live (delete client online) started (d.pumps ∷ stopped)
leave-Live online started stopped client d e h = record {
  begun = λ c g q. ground (arith, lookup-delete client c online, h.begun c g);
  runs = λ c g q. (
    ground (arith, lookup-delete client c online, h.own client c d g e, eq_iff client c),
    h.runs c g (ground (arith, lookup-delete client c online)),
  );
  own = λ c c' g g' q q' p.
      ground
        (arith, lookup-delete client c online, lookup-delete client c' online, h.own c c' g g');
  past = (h.begun client d e, h.past);
}

module _ {D P : Type 0} (store : GatekeeperStore D) (guarded : Protected P) (json : Unmarshal) where
  -- What happens at the gate: an arrival for a client that waits to be accepted, or that a client goes.
  pub data Event : Type 0 where
    arrives : String → ℕ → Arrival → Event
    goes : String → Event

  pub step : Event → NetGatekeeper D P → NetGatekeeper D P
  step (arrives client now arrival) gk = (accept_round store guarded json client now arrival gk).0
  step (goes client) gk = (say_goodbye_to_client store guarded json client gk).0

  pub run : List Event → NetGatekeeper D P → NetGatekeeper D P
  run [] gk = gk
  run (e ∷ es) gk = run es (step e gk)

  abbrev pub IsLive : NetGatekeeper D P → Type 0
  IsLive gk = Live gk.online_devices gk.started gk.stopped

  introduce-IsLive :
      (client : String) (d : GateDevice) (o : Option P) (gk : NetGatekeeper D P)
      → IsLive gk
      → IsLive (introduce store guarded json client d o gk).0
  unfolding introduce log_and_send_error_message
  introduce-IsLive client d none gk h = h
  introduce-IsLive client d (some p) gk h = after (guarded.welcome_device d p)
    where
      after : (r : P × GoError) → IsLive (after_welcome store guarded json client r gk).0
      after (q, nil) = h
      after (q, native s) = h
      after (q, masc e) = h

  accept_round-IsLive :
      (client : String) (now : ℕ) (arrival : Arrival) (gk : NetGatekeeper D P)
      → IsLive gk
      → IsLive (accept_round store guarded json client now arrival gk).0
  unfolding accept_round log_and_send_error_message
  accept_round-IsLive client now done gk h = h
  accept_round-IsLive client now closed gk h = h
  accept_round-IsLive client now (raw message) gk h =
      after (handle_hello_from_new_client store json now message gk.store)
    where
      after :
          (r : D × Result GateDevice)
          → IsLive (greeted store guarded json client r.1 (record gk { store = r.0 })).0
      after (s, failed e) = h
      after (s, ok d) =
          introduce-IsLive client _ gk.protected
            (let_in store guarded json client d (record gk { store = s }))
            (let_in-Live gk.online_devices gk.started gk.stopped client
              (record d { pumps = gk.started }) refl h)

  say_goodbye_to_client-IsLive :
      (client : String) (gk : NetGatekeeper D P)
      → IsLive gk
      → IsLive (say_goodbye_to_client store guarded json client gk).0
  unfolding say_goodbye_to_client
  say_goodbye_to_client-IsLive client gk h = by_search (lookup client gk.online_devices) refl
    where
      told :
          (d : GateDevice) (r : P × GoError) (s : D)
          → lookup client gk.online_devices ≡ some d
          → IsLive (farewell store guarded json client d r (record gk { store = s })).0
      told d (p, nil) s q = leave-Live gk.online_devices gk.started gk.stopped client d q h
      told d (p, native x) s q = h
      told d (p, masc e) s q = h

      guarded_by :
          (d : GateDevice) (o : Option P) (s : D)
          → lookup client gk.online_devices ≡ some d
          → IsLive (tell_protected store guarded json client d o (record gk { store = s })).0
      guarded_by d none s q = h
      guarded_by d (some p) s q = told d (guarded.say_goodbye_to_device d.id p) s q

      refreshed_by :
          (d : GateDevice) (r : D × Done)
          → lookup client gk.online_devices ≡ some d
          → IsLive (seen_off store guarded json client d r gk).0
      refreshed_by d (s, failed e) q = h
      refreshed_by d (s, ok u) q = guarded_by d gk.protected s q

      by_search :
          (o : Option GateDevice)
          → lookup client gk.online_devices ≡ o
          → IsLive (see_off store guarded json client o gk).0
      by_search none q = h
      by_search (some d) q = refreshed_by d _ q

  step-IsLive : (e : Event) (gk : NetGatekeeper D P) → IsLive gk → IsLive (step e gk)
  unfolding step
  step-IsLive (arrives client now arrival) gk h = accept_round-IsLive client now arrival gk h
  step-IsLive (goes client) gk h = say_goodbye_to_client-IsLive client gk h

  run-IsLive : (es : List Event) (gk : NetGatekeeper D P) → IsLive gk → IsLive (run es gk)
  unfolding run
  run-IsLive [] gk h = h
  run-IsLive (e ∷ es) gk h = run-IsLive es (step e gk) (step-IsLive e gk h)

  -- Whatever a store, what is protected and the JSON of clients do, and whatever happens at the gate of
  -- a new gatekeeper: each device that is online has pumps that were started and not shut down, and no
  -- two clients share theirs.
  pub run-new-IsLive :
      (s : D) (p : P) (es : List Event)
      → IsLive (run es (wake_up_and_protect store p (new_net_gatekeeper store s)))
  unfolding wake_up_and_protect new_net_gatekeeper lookup
  run-new-IsLive s p es =
      run-IsLive es _ (record {
        begun = λ c d q. cc;
        runs = λ c d q. tt;
        own = λ c c' d d' q q' e. cc;
        past = tt;
      })
