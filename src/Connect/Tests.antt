-- ===== src/Connect/Tests.antt =====
-- A network of two hosts behind one another, and the theorems on it (src/connect.rs).
use openrussh_client.Prelude.{
  ℕ, suc, Text, codes, List, [], ◌∷◌, none, some, true, false, ◌≡◌, refl, Result, ok, err, M,
  text_eq, if◌then◌else◌, Bool-cases, inl, inr, ap, ◌∙◌,
}
use openrussh_client.Config.{for_shell, Host, Chain, iter, next, len}
use openrussh_client.Config.Route.{route, walk}
use openrussh_client.Auth.{from_config}
use openrussh_client.Auth.Loop.{try_each}
use openrussh_client.Auth.Reply.{accepted, refused, replied}
use openrussh_client.Auth.Session.{World}
use openrussh_client.Connect.{Context, Network, auth_failure, proxy_jump, connect_impl}
use openrussh_client.KnownHosts.Alg.{ed25519, from_alg}
use openrussh_client.KnownHosts.Pattern.{
  External, patterns, host_matched_known_hosts, rsplit_port, port_text, normalize_host,
}
use openrussh_client.KnownHosts.Entry.{contains_entry, sort_by_lookup}
use openrussh_client.KnownHosts.Handler.{
  PublicKey, Entry, Handler, new, handler, ServerKey, plain_key, accepts, host_matched,
}
use openrussh_client.Connect.Trusted.{IsChecked, Each, last_from, connect_impl-Each}
use openrussh_client.KnownHosts.Preferred.{Preferred, preferred_cert_alg}
use openrussh_client.KnownHosts.Preferred.Lines.{ordered}
use openrussh_client.Connect.Made.{known_hosts-ordered}
use openrussh_client.Connect.Linked.{Arrived, connect_impl-Arrived}

abbrev host_named : Text → Host
host_named name = record {
  dest = record { name = name; port = 22; user = codes "u" };
  auth = record {
    includes_none = true;
    agent = none;
    identities = none;
    cert = none;
    identities_only = false;
  };
  tty = for_shell;
}

abbrev chain : Chain
chain = record { target = host_named (codes "t"); bastions = some (host_named (codes "a") ∷ []) }

-- A server without keys; it lets everybody in, or nobody. The state counts the calls.
abbrev server : Text → World ℕ ℕ
server name = record {
  load_public_key = λ path n. (err (codes "none"), n);
  load_secret_key = λ path n. (err (codes "none"), n);
  load_openssh_certificate = λ path n. (err (codes "none"), n);
  connect_uds = λ path n. (err (codes "none"), n);
  best_supported_rsa_hash = λ n. (err (codes "none"), n);
  authenticate_none = λ user n.
      (ok (if text_eq name (codes "closed") then refused true false else accepted), suc n);
  authenticate_publickey = λ user key alg n. (err (codes "none"), n);
  authenticate_openssh_cert = λ user key cert n. (err (codes "none"), n);
  request_identities = λ client n. (err (codes "none"), n);
  authenticate_with = λ client user id alg n. (replied accepted, n);
}

-- A handle and a channel are the name of the server that they lead to. There is no way to `lost`.
abbrev pub network : Network ℕ Text ℕ Text Text ℕ Text Text
network = record {
  connect_tcp = λ ctx name port n. (ok name, suc n);
  connect_over = λ ctx name n. (ok name, suc n);
  channel_open_direct_tcpip =
      λ h name port origin p n. (if text_eq name (codes "lost") then err h else ok name, suc n);
  world = server;
  files = record { read_40 = λ path. none };
}

abbrev pub make_handler : Host → M ℕ Text (Context Text ℕ)
make_handler host n = (ok (record { handler = host.dest.name; conf = 0 }), n)

two_hosts :
    connect_impl network make_handler chain 0
    ≡ (ok (record { handle = codes "t"; tty = for_shell }), 5)
unfolding connect_impl walk iter from_config try_each next len
two_hosts = refl

closed_bastion :
    connect_impl network make_handler
      (record chain { bastions = some (host_named (codes "closed") ∷ []) })
      0
    ≡ (err auth_failure, 2)
unfolding connect_impl walk iter from_config try_each next len
closed_bastion = refl

lost_target :
    connect_impl network make_handler (record chain { target = host_named (codes "lost") }) 0
    ≡ (err (proxy_jump (codes "a")), 3)
unfolding connect_impl walk iter from_config try_each next len
lost_target = refl

connect_impl-Arrived_example :
    Arrived network make_handler chain 0 (connect_impl network make_handler chain 0)
connect_impl-Arrived_example = connect_impl-Arrived network make_handler chain 0

-- The servers have one key, which the known hosts have for `a` and `t`.
abbrev key : PublicKey
key = record { algorithm = ed25519; digest = 17 }

abbrev line : Text → Entry
line host = record { marker = none; public_key = key; hosts = patterns (host ∷ []) }

abbrev pub lines : List Entry
lines = line (codes "t") ∷ line (codes "a") ∷ []

abbrev pub exact : External
exact = record {
  glob_matches = λ p s. some (text_eq p s);
  hmac_matches = λ salt message hash. false;
}

abbrev pub server_key : Text → ServerKey
server_key name = plain_key key

-- A handle where the handler accepts the key.
abbrev checking : Handler → Text → M ℕ Text Text
checking h name n =
    if accepts exact h (server_key name) then (ok name, suc n) else (err name, suc n)

abbrev pub checked_network : Network ℕ Handler Preferred Text Text ℕ Text Text
checked_network = record {
  connect_tcp = λ ctx name port n. checking ctx.handler name n;
  connect_over = λ ctx name n. checking ctx.handler name n;
  channel_open_direct_tcpip = λ h name port origin p n. (ok name, suc n);
  world = server;
  files = record { read_40 = λ path. none };
}

-- What russh prefers by itself.
abbrev defaults : Preferred
defaults = record { key = ed25519 ∷ []; host_key_certificates = [] }

abbrev context_of : Host → Context Handler Preferred
context_of host = record {
  handler = handler (new lines) host.dest.name host.dest.port;
  conf = record {
    key = ordered exact host.dest.name host.dest.port lines defaults.key;
    host_key_certificates = preferred_cert_alg;
  };
}

abbrev pub make_known : Host → M ℕ Text (Context Handler Preferred)
make_known host n = (ok (context_of host), n)

clash : (name g : Text) (n t : ℕ) → ◌≡◌ {A = Result Text Text × ℕ} (err name, n) (ok g, t) → ⊥
clash name g n t e = cc

checking-accepts :
    (h : Handler) (name g : Text) (n t : ℕ)
    → checking h name n ≡ (ok g, t)
    → accepts exact h (server_key g) ≡ true
checking-accepts h name g n t e = elim (Bool-cases (accepts exact h (server_key name))) [
  | inl a ↦ a
  | inr a ↦ absurd (clash name g (suc n) t (rw a at e))
]

pub checked_network-IsChecked : IsChecked checked_network make_known exact lines server_key defaults
checked_network-IsChecked = record {
  tcp = λ ctx name port s h t e. checking-accepts ctx.handler name h s t e;
  over = λ ctx c s h t e. checking-accepts ctx.handler c h s t e;
  made = λ x s ctx t e.
      known_hosts-ordered exact lines defaults x
      ∙ ap (λ p. elim p.0 [ ok c ↦ some c | err f ↦ none ]) e;
}

two_known_hosts :
    connect_impl checked_network make_known chain 0
    ≡ (ok (record { handle = codes "t"; tty = for_shell }), 5)
unfolding connect_impl walk iter from_config try_each next len accepts handler new from_alg
    contains_entry sort_by_lookup host_matched host_matched_known_hosts rsplit_port port_text
    normalize_host
two_known_hosts = refl

connect_impl-Each_example :
    (hs : List Text) × Each checked_network make_known exact lines server_key (route chain) hs
    × (last_from checked_network make_known exact lines server_key none hs ≡ some (codes "t"))
connect_impl-Each_example =
    connect_impl-Each checked_network make_known exact lines server_key checked_network-IsChecked
      chain 0 (record { handle = codes "t"; tty = for_shell }) 5 two_known_hosts
