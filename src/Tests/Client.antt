-- ===== src/Tests/Client.antt =====
-- A server with one advisory, as the OSV client meets it.
use mathlib.Core.List.Permᴰ
use hen_kai_pan.Prelude.{
  Bool, true, false, List, [], ◌∷◌, ◌≡◌, refl, inl, Option, none, some, if◌then◌else◌, arith,
}
use hen_kai_pan.Strings.{Text, lit, text_eq, text_eq_iff}
use hen_kai_pan.Threats.Records.{Dependency, QueryHit}
use hen_kai_pan.Threats.Advisory.{OsvVuln, hydrate_one}
use hen_kai_pan.Threats.Osv.{Server, query_batch_with_deps}
use hen_kai_pan.Threats.Osv.Align.{query_batch_with_deps_sound, IsBacked}
use hen_kai_pan.Threats.Osv.Order.{query_batch_with_deps-order, IsFaithful, with_order}
use hen_kai_pan.Threats.Ecosystem.{osv_ecosystem}

abbrev lodash : Dependency
lodash = record {
  ecosystem = lit "npm";
  name = lit "lodash";
  version = lit "4.17.20";
  source_file = lit "package.json";
}

abbrev moment : Dependency
moment = record {
  ecosystem = lit "npm";
  name = lit "moment";
  version = lit "2.29.4";
  source_file = lit "package.json";
}

abbrev known : OsvVuln
known = record { id = lit "GHSA-1"; aliases = lit "CVE-1" ∷ []; severity = []; affected = [] }

abbrev answer : Text → Option OsvVuln
answer id = if text_eq id (lit "GHSA-1") then some known else none

abbrev same_order : List Text → List Text
same_order ids = ids

abbrev server : Server
server = record {
  post = λ qs. some ([] ∷ (lit "GHSA-1" ∷ []) ∷ []);
  get = answer;
  order = same_order;
}

abbrev hit : QueryHit
hit = record { dependency = lodash; advisory = hydrate_one known }

answered : query_batch_with_deps server (moment ∷ lodash ∷ []) ≡ some (hit ∷ [])
unfolding query_batch_with_deps text_eq osv_ecosystem
answered = refl

known_id :
    (id : Text) (v : OsvVuln) (b : Bool)
    → (text_eq id (lit "GHSA-1") ≡ b)
    → (if b then some known else none) ≡ some v
    → v.id ≡ id
known_id id v true e h = ground (arith, text_eq_iff id (lit "GHSA-1"))
known_id id v false e h = ground arith

server-IsFaithful : IsFaithful server
server-IsFaithful id v h = known_id id v (text_eq id (lit "GHSA-1")) refl h

query_batch_with_deps_sound_example : IsBacked server (moment ∷ lodash ∷ []) hit
query_batch_with_deps_sound_example =
    query_batch_with_deps_sound server (moment ∷ lodash ∷ []) (hit ∷ []) hit server-IsFaithful
      answered (inl refl)

query_batch_with_deps-order_example :
    query_batch_with_deps (with_order server same_order) (lodash ∷ [])
    ≡ query_batch_with_deps (with_order server same_order) (lodash ∷ [])
query_batch_with_deps-order_example =
    query_batch_with_deps-order server same_order same_order (lodash ∷ []) server-IsFaithful
      (λ ids. Permᴰ.refl ids) (λ ids. Permᴰ.refl ids)
