-- ===== src/Auth/Session/Tests.antt =====
-- A server that counts the requests, and a certificate of a host beside the keys.
use openrussh_client.Prelude.{ℕ, suc, none, M, false, ◌≡◌, refl, sym, ap, codes, ok, err}
use openrussh_client.KnownHosts.Alg.{ed25519}
use openrussh_client.Auth.{local, agent, local_priv, local_cert, agent_cert_priv, agent_cert_pub}
use openrussh_client.Auth.Reply.{Cause, accepted, replied, host_cert, success}
use openrussh_client.Auth.Session.{PublicKey, Certificate, World, auth}
use openrussh_client.Auth.Session.Accepted.{AcceptedIn, auth-AcceptedIn}
use openrussh_client.Auth.Session.Certificates.{fits, NeverFit, IsKept, Rejected, auth-Rejected}

abbrev public_key : PublicKey
public_key = record { algorithm = ed25519; key_data = codes "a" }

abbrev host_certificate : Certificate
host_certificate = record {
  is_user = false;
  algorithm = ed25519;
  public_key = codes "a";
  body = codes "h";
}

abbrev pub world : World ℕ ℕ
world = record {
  load_public_key = λ path n. (ok public_key, n);
  load_secret_key = λ path n. (ok (record { public = public_key }), n);
  load_openssh_certificate = λ path n. (ok host_certificate, n);
  connect_uds = λ path n. (ok 0, n);
  best_supported_rsa_hash = λ n. (ok none, n);
  authenticate_none = λ user n. (err (codes "closed"), suc n);
  authenticate_publickey = λ user key alg n. (ok accepted, suc n);
  authenticate_openssh_cert = λ user key cert n. (ok accepted, suc n);
  request_identities = λ client n. (err (codes "closed"), n);
  authenticate_with = λ client user id alg n. (replied accepted, suc n);
}

by_key : auth world (codes "u") (local (local_priv (codes "/k"))) 0 ≡ (ok success, 1)
unfolding auth
by_key = refl

by_host_certificate :
    auth world (codes "u") (local (local_cert (codes "/c") (codes "/k"))) 0 ≡ (err host_cert, 0)
unfolding auth
by_host_certificate = refl

-- No request has been made.
abbrev Untouched : ℕ → Type 0
Untouched n = n ≡ 0

Untouched-IsKept : IsKept world Untouched
Untouched-IsKept = record {
  certificate_file = λ path. record { at = λ s p. p };
  secret_file = λ path. record { at = λ s p. p };
  public_file = λ path. record { at = λ s p. p };
  agent_socket = λ path. record { at = λ s p. p };
}

unfit :
    {K : Type 0} (load : M ℕ Cause K) (public : K → PublicKey)
    → NeverFit world Untouched (codes "/c") load public
unfit load public c k s t u v e h =
    sym (ap (λ r. elim r.0 [ err x ↦ false | ok b ↦ fits b (public k) ]) e)

auth-Rejected_example :
    Rejected Untouched (auth world (codes "u") (local (local_cert (codes "/c") (codes "/k"))) 0)
    × Rejected Untouched
        (auth world (codes "u") (agent (codes "/s") (agent_cert_priv (codes "/c") (codes "/k"))) 0)
    × Rejected Untouched
        (auth world (codes "u") (agent (codes "/s") (agent_cert_pub (codes "/c") (codes "/k"))) 0)
auth-Rejected_example =
    auth-Rejected world Untouched Untouched-IsKept (codes "u") (codes "/c") (codes "/k")
      (codes "/s") (unfit _ (λ k. k.public)) (unfit _ (λ k. k)) 0 refl

auth-AcceptedIn_example : AcceptedIn world (codes "u") 1
auth-AcceptedIn_example =
    auth-AcceptedIn world (codes "u") (local (local_priv (codes "/k"))) 0 1 by_key
