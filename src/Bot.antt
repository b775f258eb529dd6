-- ===== src/Bot.antt =====
-- Bot accounts (pkg/bot/bot.go). A login is walked by its code points; strings.ToLower is modelled
-- on ASCII, which is all that a GitHub login holds.
use Prim.Native.Char.{code}
use devtrace.Base.{
  refl, ◌+◌, nat_eq, any, ◌&&◌, ◌||◌, false, true, map, leb, ◌∷◌, [], ◌≡◌, if◌then◌else◌, List, ℕ,
  String, Bool,
}

abbrev pub codes : String → List ℕ
codes String.[] = []
codes (String.◌∷◌ c s) = code c ∷ codes s

abbrev pub same_codes : List ℕ → List ℕ → Bool
same_codes [] [] = true
same_codes [] (d ∷ ds) = false
same_codes (c ∷ cs) [] = false
same_codes (c ∷ cs) (d ∷ ds) = nat_eq c d && same_codes cs ds

-- strings.HasSuffix
abbrev has_suffix : List ℕ → List ℕ → Bool
has_suffix [] suffix = same_codes [] suffix
has_suffix (c ∷ cs) suffix = same_codes (c ∷ cs) suffix || has_suffix cs suffix

abbrev lower_code : ℕ → ℕ
lower_code c = if leb b'A' c && leb c b'Z' then c + 32 else c

abbrev to_lower : List ℕ → List ℕ
to_lower = map lower_code

known_bots : List String
known_bots =
    "copilot" ∷ "github-copilot" ∷ "claude" ∷ "anthropic-claude" ∷ "coderabbitai" ∷ "dependabot"
    ∷ "renovate" ∷ "greenkeeper" ∷ "snyk-bot" ∷ "whitesource-bolt" ∷ "codecov" ∷ "sonar-bot"
    ∷ "circleci" ∷ "jenkins" ∷ "travisci" ∷ "mergify" ∷ "kodiak" ∷ "bulldozer"
    ∷ "semantic-release-bot" ∷ "changeset-bot" ∷ "pre-commit-ci" ∷ "stale" ∷ "allcontributors"
    ∷ "imgbot" ∷ "imgbotapp" ∷ "netlify" ∷ "vercel" ∷ "googleapis-bot" ∷ "google-cla" ∷ []

is_bot_codes : List ℕ → Bool
unfolding known_bots
is_bot_codes name =
    if has_suffix name (codes "[bot]")
    then true
    else any (λ b. same_codes (codes b) (to_lower name)) known_bots

unfoldable pub is_bot : String → Bool
unfolding is_bot_codes
is_bot username = is_bot_codes (codes username)

recognised :
    (is_bot "dependabot[bot]" ≡ true) × (is_bot "Renovate" ≡ true) × (is_bot "octocat" ≡ false)
unfolding is_bot
recognised = (refl, refl, refl)
