-- ===== src/Http/Status.antt =====
-- The statuses that the handlers answer, as in net/http.
use network_computer.Prelude.{ℕ}

abbrev pub ok : ℕ
ok = 200

abbrev pub unauthorized : ℕ
unauthorized = 401

abbrev pub method_not_allowed : ℕ
method_not_allowed = 405

abbrev pub too_many_requests : ℕ
too_many_requests = 429

abbrev pub bad_request : ℕ
bad_request = 400

abbrev pub internal_server_error : ℕ
internal_server_error = 500

abbrev pub bad_gateway : ℕ
bad_gateway = 502

abbrev pub service_unavailable : ℕ
service_unavailable = 503

abbrev pub not_found : ℕ
not_found = 404
