-- ===== src/Http/Asks.antt =====
-- Requests that ask for a websocket.
use cndl.Base.{
  ◌≡◌, refl, ap, ◌∙◌, Bytes, codes, str_eq_iff, Bool, true, false, Option, none, some, Result, ok,
  err, Exception, >>=-eq-ok, if◌then◌else◌,
}
use cndl.Request.Types.{Request}
use cndl.Request.Parse.{find_field}
use cndl.Http.Upgrade.{ignore_case_cmp, websocket_key, or_throw, bad_upgrade}

-- A request that asks for a websocket, with its key.
pub record AsksWebsocket (request : Request) : Type 0 where
  pub is_get : request.header.method ≡ codes "GET"
  pub upgrade_type : Bytes
  pub upgrade : find_field (codes "upgrade") request.header.fields ≡ some upgrade_type
  pub websocket : ignore_case_cmp upgrade_type (codes "websocket") ≡ true
  pub key : Bytes
  pub has_key : find_field (codes "sec-websocket-key") request.header.fields ≡ some key
  pub version : find_field (codes "sec-websocket-version") request.header.fields ≡ some (codes "13")

pub or_throw-eq-ok :
    (e : Exception) (o : Option Bytes) {v : Bytes} → or_throw e o ≡ ok v → o ≡ some v
or_throw-eq-ok e none h = cc
or_throw-eq-ok e (some value) h = cc

pub if-eq-ok :
    {A : Type 0} (b : Bool) (m : Result A) (e : Exception) {a : A}
    → (if b then m else err e) ≡ ok a
    → (b ≡ true) × (m ≡ ok a)
if-eq-ok true m e h = (refl, h)
if-eq-ok false m e h = cc

pub websocket_key-eq-ok :
    (request : Request) {key : Bytes} → websocket_key request ≡ ok key → AsksWebsocket request
unfolding websocket_key
websocket_key-eq-ok request h =
    let (get, inner) = if-eq-ok _ _ _ h in
    let (upgrade_type, found, inner2) = >>=-eq-ok _ _ inner in
    let (websocket, inner3) = if-eq-ok _ _ _ inner2 in
    let (key, has_key, inner4) = >>=-eq-ok _ _ inner3 in
    let (version, has_version, inner5) = >>=-eq-ok _ _ inner4 in
    let (thirteen, last) = if-eq-ok _ _ _ inner5 in
    record {
      is_get = (str_eq_iff _ _).0 get;
      upgrade_type = upgrade_type;
      upgrade = or_throw-eq-ok bad_upgrade _ found;
      websocket = websocket;
      key = key;
      has_key = or_throw-eq-ok bad_upgrade _ has_key;
      version = or_throw-eq-ok bad_upgrade _ has_version ∙ ap some ((str_eq_iff _ _).0 thirteen);
    }
