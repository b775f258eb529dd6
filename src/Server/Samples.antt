-- ===== src/Server/Samples.antt =====
-- A tenant for the tests of the server.
use devtrace.Base.{none}
use devtrace.Tenant.Defs.{Tenant}

abbrev pub free_tenant : Tenant
free_tenant = record {
  id = "t1";
  github_id = 1;
  username = "ada";
  email = "";
  avatar_url = "";
  name = "";
  company = "";
  location = "";
  bio = "";
  plan = "free";
  status = "active";
  max_contributors = 50;
  tos_accepted_at = none;
  created_at = 1;
  updated_at = 1;
}
