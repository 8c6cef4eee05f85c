-- ===== src/Tools/Reads.antt =====
-- What a successful `write_tool` leaves behind.
use mechagnome.Base.{
  ℕ, String, ◌≡◌, refl, sym, ap, ◌∙◌, true, false, Option, none, some, List, [], ◌∷◌, arith, ◌==◌,
  nat_eq, string_eq,
}
use mechagnome.Base.Rows.{find}
use mechagnome.Outcome.{ok}
use mechagnome.Schema.{Version, Db, version_with_id}
use mechagnome.Tools.Resolve.{
  ResolvedTool, find_version, first_bound, resolved, wanted_version, resolve_in,
}
use mechagnome.Tools.Write.{
  WriteRequest, WriteResult, Authored, target_of, next_version, write_connection,
}
use mechagnome.Tools.Ownership.{IsWellFormed}
use mechagnome.Tools.Extension.{lineage_of_lem}
use mechagnome.Tools.Written.{written-Extends}
use mechagnome.Tools.FullWrite.{steps, target_reads, others_read, full_write-IsWellFormed}
use mechagnome.Tools.Leads.{Leads, target_of-Leads, first_bound-target, bound_in-version}

-- A successful full write through a session's scope is what the name resolves to afterwards, in
-- the same scope: the version whose number was returned, with the description, the schema and the
-- source that were given. The database is well formed, and no toolbox is named in the request.
pub write-resolve :
    (r : WriteRequest) (a : Authored) (ns : Option (List String)) (scope : List String) (db : Db)
    (res : WriteResult) (db' : Db)
    → IsWellFormed db
    → r.toolbox ≡ none
    → write_connection r (some a) ns scope db ≡ ok (res, db')
    → (tool : ResolvedTool) × (resolve_in db' r.name none scope ≡ ok tool)
      × (tool.version ≡ res.version)
      × (tool.description ≡ a.description)
      × (tool.schema_json ≡ a.schema_json)
      × (tool.source ≡ a.source)
unfolding resolve_in wanted_version
write-resolve r a ns scope db res db' w untold h =
    let s = steps r a ns scope db res db' h in
    let (j, bound, row, number, _) = target_reads s w in
    let front : Leads db r.name scope s.target =
      target_of-Leads w r.name scope s.target
        (ap (λ (o : Option String). target_of db true r.name o scope) (sym untold) ∙ s.aimed) in
    let first : first_bound db' r.name scope ≡ some j =
      first_bound-target db db' r.name s.target j bound
        (λ t apart. others_read s w r.name t (rw apart refl)) scope front in
    let stored = bound_in-version db' r.name s.target j bound in
    (
      resolved j j.version,
      rw (first, stored) refl,
      ap (λ (v : Version). v.version) row ∙ sym s.number,
      ap (λ (v : Version). v.description) row,
      ap (λ (v : Version). v.schema_json) row,
      ap (λ (v : Version). v.source) row,
    )

-- A successful full write keeps the database well formed: each binding leads to a version whose lineage
-- has the toolbox and the name of the binding, and a lineage or a version that is found by its key is
-- the one found by its id.
pub write-IsWellFormed :
    (r : WriteRequest) (a : Authored) (ns : Option (List String)) (scope : List String) (db : Db)
    (res : WriteResult) (db' : Db)
    → IsWellFormed db
    → write_connection r (some a) ns scope db ≡ ok (res, db')
    → IsWellFormed db'
write-IsWellFormed r a ns scope db res db' w h =
    full_write-IsWellFormed (steps r a ns scope db res db' h) w

-- A successful full write changes what no other name resolves to, in any scope.
pub write-resolve_ne :
    (r : WriteRequest) (a : Authored) (ns : Option (List String)) (scope : List String) (db : Db)
    (res : WriteResult) (db' : Db) (other : String) (ts : List String)
    → IsWellFormed db
    → (r.name == other) ≡ false
    → write_connection r (some a) ns scope db ≡ ok (res, db')
    → first_bound db' other ts ≡ first_bound db other ts
unfolding first_bound
write-resolve_ne r a ns scope db res db' other [] w apart h = refl
write-resolve_ne r a ns scope db res db' other (t ∷ ts) w apart h =
    let s = steps r a ns scope db res db' h in
    rw
      (
        others_read s w other t (ground arith),
        write-resolve_ne r a ns scope db res db' other ts w apart h,
      )
      refl

-- A version, once stored, stays as it is through every successful full write.
pub write-immutable :
    (r : WriteRequest) (a : Authored) (ns : Option (List String)) (scope : List String) (db : Db)
    (res : WriteResult) (db' : Db) (i : ℕ) (v : Version)
    → IsWellFormed db
    → write_connection r (some a) ns scope db ≡ ok (res, db')
    → find_version db i ≡ some v
    → find_version db' i ≡ some v
write-immutable r a ns scope db res db' i v w h found =
    let s = steps r a ns scope db res db' h in
    let (_, _, _, _, _, ext, _, _, _) =
      lineage_of_lem db true s.target r.name s.lineage s.base s.made w in
    let stored =
      written-Extends s.base s.lineage (next_version s.base s.lineage) s.target r.name a.description
        a.schema_json a.source in
    ap (find (version_with_id i)) s.stored.versions ∙ stored.versions i v (ext.versions i v found)
