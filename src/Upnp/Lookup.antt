-- ===== src/Upnp/Lookup.antt =====
-- Where the external address of src/upnp.rs comes from.
use voirc.Base.{
  ==_iff, ◌∙◌, sym, ap, ◌≢◌, ◌≡◌, ◌⊎◌, inl, inr, refl, Bool, true, false, Option, none, some, Text,
  if◌then◌else◌, length, ◌==◌, arith,
}
use voirc.Dict.{mapped}
use voirc.Strings.{lit, trim, split}
use voirc.Config.{NetDiagnostics}
use voirc.Upnp.{
  Outcome, ok, err, Gateway, noted, asked_gateway, body_of, read_response, fetch_public_ip_http,
  fall_back, external_ip_from, get_external_ip,
}

abbrev message : Text
message = lit "Failed to parse IP from HTTP response"

value : Text → Outcome Text → Text
value other (ok a) = a
value other (err e) = other

ok-injective : (a b : Text) → ok a ≡ ok b → a ≡ b
unfolding value
ok-injective a b e = ap (value a) e

err_ne_ok : (msg a : Text) → err msg ≢ ok a
err_ne_ok msg a e = ground (arith, e)

parts_of :
    (b : Bool) (a ip msg : Text)
    → (length (split b'.' a) == 4) ≡ b
    → (if b then ok a else err msg) ≡ ok ip
    → length (split b'.' ip) ≡ 4
parts_of true a ip msg h e =
    ap (λ t. length (split b'.' t)) (sym (ok-injective a ip e))
    ∙ (==_iff (length (split b'.' a)) 4).0 h
parts_of false a ip msg h e = absurd (err_ne_ok msg ip e)

-- An address that the service gives has four parts between dots.
read_response-parts :
    (body : Option Text) (ip : Text) → read_response body ≡ ok ip → length (split b'.' ip) ≡ 4
unfolding read_response
read_response-parts none ip e = absurd (err_ne_ok _ ip e)
read_response-parts (some body) ip e = parts_of _ (trim body) ip _ refl e

fetch_public_ip_http-parts :
    (response : Outcome Text) (ip : Text)
    → fetch_public_ip_http response ≡ ok ip
    → length (split b'.' ip) ≡ 4
unfolding fetch_public_ip_http
fetch_public_ip_http-parts (err e) ip h = absurd (err_ne_ok e ip h)
fetch_public_ip_http-parts (ok response) ip h = read_response-parts (body_of response) ip h

external_ip_from-sources :
    (d : NetDiagnostics) (asked http local_ip : Outcome Text) (ip : Text)
    → (external_ip_from (some d) asked http local_ip).1 ≡ ok ip
    → (((asked ≡ ok ip) ⊎ (http ≡ ok ip))
        × (mapped (λ s. s.external_ip) (external_ip_from (some d) asked http local_ip).0
            ≡ some (some ip)))
      ⊎ (local_ip ≡ ok ip)
unfolding external_ip_from fall_back noted
external_ip_from-sources d (ok a) http local_ip ip e =
    inl (inl e, ap (λ t. some (some t)) (ok-injective a ip e))
external_ip_from-sources d (err x) (ok a) local_ip ip e =
    inl (inr e, ap (λ t. some (some t)) (ok-injective a ip e))
external_ip_from-sources d (err x) (err y) local_ip ip e = inr e

by_parts {ℓ κ ι} :
    {A : Type ℓ} {B : Type κ} {C : Type ι} (response : Outcome Text) (ip : Text)
    → ((A ⊎ (fetch_public_ip_http response ≡ ok ip)) × B) ⊎ C
    → ((A ⊎ (length (split b'.' ip) ≡ 4)) × B) ⊎ C
by_parts response ip (inl (inl a, b)) = inl (inl a, b)
by_parts response ip (inl (inr h, b)) = inl (inr (fetch_public_ip_http-parts response ip h), b)
by_parts response ip (inr x) = inr x

-- An address that is found is the gateway's, or one of four parts that the service gave, and then it is
-- noted in the diagnostics, or else it is the local address.
pub get_external_ip-sources :
    (gateway : Outcome Gateway) (response local_ip : Outcome Text) (state : NetDiagnostics)
    (ip : Text)
    → (get_external_ip gateway response local_ip (some state)).1 ≡ ok ip
    → (((asked_gateway gateway ≡ ok ip) ⊎ (length (split b'.' ip) ≡ 4))
        × (mapped (λ d. d.external_ip) (get_external_ip gateway response local_ip (some state)).0
            ≡ some (some ip)))
      ⊎ (local_ip ≡ ok ip)
unfolding get_external_ip noted
get_external_ip-sources gateway response (ok l) state ip e = by_parts response ip (
    external_ip_from-sources (record state { local_ip = some l }) (asked_gateway gateway)
      (fetch_public_ip_http response) (ok l) ip e)
get_external_ip-sources gateway response (err l) state ip e = by_parts response ip (
    external_ip_from-sources state (asked_gateway gateway) (fetch_public_ip_http response) (err l)
      ip e)
