-- ===== src/Service/Npm.antt =====
-- npmPublisherProfile and publisherEnrichment (pkg/service/score.go).
use devtrace.Model.Enrichment.{Package, Publisher, RegistryProfile}
use devtrace.Base.Time.{Time, Duration}
use devtrace.Service.Lookups.{
  Fetched, Lookup, Row, fetch_failed, fetched, is_fresh, not_found, shows,
}
use devtrace.Base.{[], true, none, nat_eq, if◌then◌else◌, some, ℕ, Option, List}

-- registry.Package is the same as model.Package.
abbrev pub npm_of_fetch : Row RegistryProfile → Fetched (ℕ × List Package) → Lookup RegistryProfile
npm_of_fetch row (fetched r) =
    let out : RegistryProfile = record { package_count = r.0; top = r.1 } in
    record { shown = some out; saved = some out; asked = true }
npm_of_fetch row not_found =
    let empty : RegistryProfile = record { package_count = 0; top = [] } in
    record { shown = some empty; saved = some empty; asked = true }
npm_of_fetch row fetch_failed = record { shown = row.cached; saved = none; asked = true }

unfoldable pub npm_publisher_profile :
    Duration → Row RegistryProfile → Time → Fetched (ℕ × List Package) → Lookup RegistryProfile
npm_publisher_profile ttl row now fetch =
    if is_fresh row now ttl then shows row.cached else npm_of_fetch row fetch

-- publisherEnrichment, on what npmPublisherProfile shows.
unfoldable pub publisher_of : Option RegistryProfile → Option Publisher
publisher_of none = none
publisher_of (some p) =
    if nat_eq p.package_count 0
    then none
    else some (record { npm = some p; py_pi = none; total_packages = p.package_count })
