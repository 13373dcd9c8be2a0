-- ===== src/Http/Startup/Tests.antt =====
-- Runs of the start in crates/sts-http/src/lib.rs, on a machine whose every file is a JWKS of one key.
use sts_delegate_rs.Prelude.{
  ℕ, zero, suc, String, true, false, ◌≡◌, refl, Option, none, some, List, [], ◌∷◌, ok, err, text_eq,
  if◌then◌else◌,
}
use sts_delegate_rs.Json.{
  Json, Members, member_of, no_members, item, no_items, object, array, string,
}
use sts_delegate_rs.Jose.{PublicJwk, JwksDocument}
use sts_delegate_rs.Jose.Sample.{sample_jwk}
use sts_delegate_rs.Config.Load.{RuntimeConfig}
use sts_delegate_rs.Http.Sample.{sample_config}
use sts_delegate_rs.Http.Startup.{
  Machine, SocketAddr, v4, v6, invalid_bind, io, invalid_jwks, parse_bind_addr, check_file_mode,
  public_key, published_jwks, normalize_public_jwks_value, validate_inbound_assertion_algorithms,
}
use sts_delegate_rs.Http.Startup.Published.{IsPublished, published_jwks-IsPublished}

abbrev zeros : ℕ → List ℕ
zeros zero = []
zeros (suc n) = 0 ∷ zeros n

abbrev old_jwk : PublicJwk
old_jwk = record sample_jwk { kid = "old" }

abbrev old_members : Members
old_members = member_of "kid" (string "old") (member_of "kty" (string "RSA") no_members)

abbrev extra_document : Json
extra_document = object (member_of "keys" (array (item (object old_members) no_items)) no_members)

-- Mode 0644, and an address on all interfaces.
abbrev one_key_machine : Machine
one_key_machine = record {
  quoted = λ s. s;
  parse_socket_addr =
      λ s. ok (record { ip = if text_eq s "here" then v4 127 0 0 1 else v6 0; port = 8888 });
  mode = λ path. some (if text_eq path "open" then 438 else 420);
  read_to_string = λ path. ok "{}";
  from_str = λ raw. ok extra_document;
  jwk_from_value = λ value. ok old_jwk;
  base64_decode = λ s. ok (128 ∷ zeros 255);
}

abbrev overlap_config : RuntimeConfig
overlap_config = record sample_config { obo_sts_extra_jwks_file = some "extra.json" }

abbrev signer_jwks : JwksDocument
signer_jwks = record { keys = sample_jwk ∷ [] }

abbrev both_jwks : JwksDocument
both_jwks = record { keys = sample_jwk ∷ old_jwk ∷ [] }

open_file_test :
    check_file_mode one_key_machine "open" "key" false
    ≡ err (
        io "open"
          "key is group/world-writable (mode 666); chmod 600 or set the explicit insecure override")
unfolding sts_delegate_rs.Prelude.refuse_if check_file_mode sts_delegate_rs.Http.Startup.show_mode
open_file_test = refl

private_key_test :
    public_key one_key_machine "IdP JWKS"
      (object (member_of "d" (string "") (member_of "priv" (string "") no_members)))
    ≡ err (
        invalid_jwks "IdP JWKS"
          "key contains private JWK member(s) d,priv; public JWKS files must not contain private material")
unfolding sts_delegate_rs.Prelude.◌>>=◌ sts_delegate_rs.Prelude.refuse_if
    sts_delegate_rs.Prelude.ok_or public_key sts_delegate_rs.Http.Startup.private_found
    sts_delegate_rs.Json.contains_key sts_delegate_rs.Json.get
    sts_delegate_rs.Http.Startup.join_commas
private_key_test = refl

plaintext_test :
    parse_bind_addr one_key_machine
      (record sample_config { our_issuer = "http://a.example"; http_addr = "[::]:80" })
    ≡ err (
        invalid_bind
          "refusing non-loopback plaintext bind for http issuer; use https issuer or set ALLOW_INSECURE_HTTP_BIND=true")
unfolding sts_delegate_rs.Prelude.◌>>=◌ sts_delegate_rs.Prelude.map_err
    sts_delegate_rs.Prelude.refuse_if parse_bind_addr
plaintext_test = refl

published_jwks-IsPublished_example :
    IsPublished one_key_machine overlap_config signer_jwks both_jwks
unfolding sts_delegate_rs.Prelude.◌>>=◌ sts_delegate_rs.Prelude.map_err
    sts_delegate_rs.Prelude.refuse_if sts_delegate_rs.Prelude.ok_or
    sts_delegate_rs.Jose.Keys.rsa_public_key_from_jwk sts_delegate_rs.Jose.Keys.decode_jwk_component
    sts_delegate_rs.Jose.Keys.decode_jwk_octets sts_delegate_rs.Jose.Keys.validate_public_components
    published_jwks sts_delegate_rs.Http.Startup.load_public_jwks_file
    sts_delegate_rs.Http.Startup.read_checked_file check_file_mode normalize_public_jwks_value
    sts_delegate_rs.Http.Startup.raw_keys sts_delegate_rs.Json.get
    sts_delegate_rs.Http.Startup.collect_keys public_key sts_delegate_rs.Http.Startup.private_found
    sts_delegate_rs.Json.contains_key sts_delegate_rs.Jose.Keys.validate_public_jwk
    sts_delegate_rs.Http.Startup.check_rsa_size
    sts_delegate_rs.Jose.Keys.rsa_public_key_bits_from_jwk
    sts_delegate_rs.Jose.Keys.rsa_modulus_bits sts_delegate_rs.Http.Startup.add_extra
published_jwks-IsPublished_example =
    published_jwks-IsPublished one_key_machine overlap_config signer_jwks both_jwks refl
