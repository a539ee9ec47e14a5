-- ===== src/Warp/Tests.antt =====
-- internal/warp at concrete inputs.
use nunya_core.Common.{
  ℕ, true, false, none, some, List, [], ◌∷◌, codes, ◌+◌, ◌&&◌, if◌then◌else◌, leb,
}
use nunya_core.Warp.Client.{Device, unanswered, answered, Attempt, register}
use nunya_core.Warp.Client.Once.{Searched, register-Searched}
use nunya_core.Warp.Register.{Answers, masque, register_identity}
use nunya_core.Warp.Register.Meets.{Meets}
use nunya_core.Warp.Register.Complete.{Complete, register_identity-Complete}

abbrev a_device : Device
a_device = record {
  id = codes "d";
  token = codes "t";
  license = [];
  client_id = [];
  v4 = codes "172.16.0.2";
  v6 = [];
  peers = record { public_key = codes "k"; host = [] } ∷ [];
}

abbrev three_hosts : List Attempt
three_hosts =
    record { host = codes "a"; exchange = answered 403 none; done = false }
    ∷ record { host = codes "b"; exchange = unanswered; done = false }
    ∷ record { host = codes "c"; exchange = answered 200 (some a_device); done = false }
    ∷ []

register-Searched_example : Searched three_hosts (register three_hosts)
register-Searched_example = register-Searched three_hosts

abbrev ascii_lower : ℕ → ℕ
ascii_lower c = if leb 65 c && leb c 90 then c + 32 else c

abbrev raw_hosts : List (List ℕ)
raw_hosts = codes " HTTPS://Api.example/reg" ∷ codes "api.example" ∷ codes "#" ∷ []

abbrev good_answers : Answers
good_answers = record {
  client = true;
  private_key = some (codes "p");
  serial = true;
  lower = ascii_lower;
  post = λ host. answered 200 (some a_device);
  done = λ host. false;
  decode = λ text. some text;
  masque_key = some (codes "m");
  patch = λ host id token. answered 200 (some a_device);
  parse_peer = λ text. some text;
}

register_identity-Complete_example :
    Meets (Complete masque good_answers raw_hosts) (register_identity masque good_answers raw_hosts)
register_identity-Complete_example = register_identity-Complete masque good_answers raw_hosts
