-- ===== src/Service/GateLaws.antt =====
-- What a plan lets a caller see of a response.
use devtrace.Service.Feature.{Feature}
use mathlib.Core.Option
use devtrace.Base.Time.{Time}
use devtrace.Score.Float.{Float}
use devtrace.Base.{String_eq, Option}
