-- ===== src/Api/Tests.antt =====
-- Tests of the API's services: the client's address, the scheduler, the probe and the store's health.
use presslabz.Base.{
  ℕ, ◌+◌, ◌≡◌, refl, inl, Bool, true, false, none, some, List, [], ◌∷◌, String, str_eq, ◌==◌, any,
  if◌then◌else◌,
}
use presslabz.Api.ClientIp.{
  ClientIpOptions, forwarded, Request, undefined, single, client, resolve, normalize_address,
  peer_of, parse_single_address,
}
use presslabz.Api.ClientIp.Identity.{resolve-untrusted, resolve-named}
use presslabz.Api.Scheduler.{timer_fires, published_due, publish_failed, start_scheduler, run}
use presslabz.Api.Scheduler.Orderly.{IsOrderly, run-IsOrderly}
use presslabz.Api.Probe.{create_probe, run_all, called, settled, budget_over}
use presslabz.Api.Probe.Flight.{IsSingleFlight, run_all-IsSingleFlight}
use presslabz.Api.StoreHealth.{created, record_all, record_all-accounted, Alternates, accounted}

-- The addresses that these tests use.
abbrev is_ip : String → ℕ
is_ip s = if any (str_eq s) ("10.0.0.1" ∷ "8.8.8.8" ∷ "9.9.9.9" ∷ []) then 4 else 0

abbrev compile : List String → String → Bool
compile trusted peer = any (str_eq peer) trusted

abbrev behind_proxy : ClientIpOptions
behind_proxy = record { source = forwarded; trusted_proxies = "10.0.0.1" ∷ []; header_name = none }

abbrev direct : Request
direct = record {
  remote_address = some "::ffff:9.9.9.9";
  ip = "9.9.9.9";
  headers = λ name. undefined;
}

abbrev forged : Request
forged = record {
  remote_address = some "::ffff:9.9.9.9";
  ip = "1.1.1.1";
  headers = λ name. single "1.1.1.1";
}

abbrev proxied : Request
proxied = record {
  remote_address = some "10.0.0.1";
  ip = "8.8.8.8";
  headers = λ name. single "8.8.8.8";
}

resolve-untrusted_example :
    (resolve is_ip compile behind_proxy direct ≡ client "9.9.9.9")
    × (resolve is_ip compile behind_proxy forged ≡ client "9.9.9.9")
unfolding normalize_address
resolve-untrusted_example =
    resolve-untrusted is_ip compile behind_proxy direct forged "::ffff:9.9.9.9" refl refl refl

resolve-named_example :
    (is_ip "8.8.8.8" == 0 ≡ false)
    × (behind_proxy.source ≡ forwarded → compile behind_proxy.trusted_proxies "8.8.8.8" ≡ false)
unfolding resolve peer_of parse_single_address normalize_address
resolve-named_example =
    resolve-named is_ip compile behind_proxy proxied "8.8.8.8" (inl refl) refl refl

run-IsOrderly_example :
    IsOrderly
      (run start_scheduler (timer_fires ∷ published_due 0 [] ∷ timer_fires ∷ publish_failed 0 ∷ []))
run-IsOrderly_example =
    run-IsOrderly (timer_fires ∷ published_due 0 [] ∷ timer_fires ∷ publish_failed 0 ∷ [])

run_all-IsSingleFlight_example :
    IsSingleFlight
      (run_all create_probe (called ∷ called ∷ budget_over 0 ∷ settled 0 true ∷ called ∷ []))
run_all-IsSingleFlight_example =
    run_all-IsSingleFlight (called ∷ called ∷ budget_over 0 ∷ settled 0 true ∷ called ∷ [])

record_all-accounted_example :
    Alternates true
      (record_all created (true ∷ true ∷ false ∷ true ∷ [])).log
      (record_all created (true ∷ true ∷ false ∷ true ∷ [])).healthy
    × (accounted (record_all created (true ∷ true ∷ false ∷ true ∷ [])).log
          + (record_all created (true ∷ true ∷ false ∷ true ∷ [])).suppressed
        ≡ 3)
record_all-accounted_example = record_all-accounted (true ∷ true ∷ false ∷ true ∷ [])
