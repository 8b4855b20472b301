-- ===== src/Turnaround/World.antt =====
-- What the turnaround service runs in: the systems that it calls, and the state that its calls
-- read and write. A handler is an action: it returns or throws, and leaves a new state.
use microservices_practice.Common.{ℕ, suc, String, Bool, Option, List}
use microservices_practice.Common.Int.{ℤ}
use microservices_practice.Turnaround.Schema.{Date}
use microservices_practice.Turnaround.Event.{Publication}
use microservices_practice.Turnaround.Store.{Mongo, Collection, Error, Result, ok, err, Fault}

-- `WeatherData` of weather/weather.service.ts. Temperatures are in tenths of a degree.
pub record WeatherData : Type 0 where
  pub icao : String
  pub temperature_c : Option ℤ
  pub visibility_m : Option ℕ
  pub conditions : List String
  pub is_icing : Bool
  pub is_lvp : Bool

-- What comes of `fetch` and `resp.json()`: no answer, a status that is not ok, a body that is no
-- JSON, or the data.
pub data FetchReply : Type 0 where
  unreachable : FetchReply
  not_ok : FetchReply
  malformed : FetchReply
  weather : WeatherData → FetchReply

-- The systems outside the repository. Their answers are numbered by the calls of a run.
pub record Env : Type 0 where
  pub mongo : Mongo
  pub now : ℕ → ℕ  -- Date.now(), in milliseconds
  pub uuid : ℕ → String
  pub fetch : ℕ → FetchReply
  pub broker : ℕ → Fault
  pub parse_date : String → Date  -- new Date(text)

-- The collection, the cache of the weather service, the messages at the broker, and the number of
-- external calls so far.
pub record World : Type 0 where
  pub db : Collection
  pub cached_weather : Option WeatherData
  pub last_fetch_at : ℕ
  pub published : List Publication
  pub calls : ℕ

abbrev pub Action : Type 0 → Type 0
Action A = World → Result A × World

abbrev pub pure : {A : Type 0} → A → Action A
pure a w = (ok a, w)

abbrev pub throw : {A : Type 0} → Error → Action A
throw e w = (err e, w)

infixl 5 ◌>>=◌ ◌>>◌
abbrev pub ◌>>=◌ : {A B : Type 0} → Action A → (A → Action B) → Action B
◌>>=◌ m f w = let (r, w') = m w in elim r [ ok a ↦ f a w' | err e ↦ throw e w' ]

abbrev pub ◌>>◌ : {A B : Type 0} → Action A → Action B → Action B
m >> k = m >>= λ _. k

-- `try { m } catch { handler }`
abbrev pub catch : {A : Type 0} → Action A → Action A → Action A
catch m handler w = let (r, w') = m w in elim r [ ok a ↦ pure a w' | err e ↦ handler w' ]

abbrev pub counted : World → World
counted w = record w { calls = suc w.calls }

-- Reading the clock and drawing a uuid are external calls too.
abbrev pub date_now : Env → Action ℕ
date_now e w = (ok (e.now w.calls), counted w)

abbrev pub uuidv4 : Env → Action String
uuidv4 e w = (ok (e.uuid w.calls), counted w)
