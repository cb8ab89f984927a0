-- ===== src/Examples.antt =====
-- Sample data for the examples: two accounts, a few messages, and a pipeline over the store in memory.
pub mod Settings
pub mod Mail
pub mod Imap
pub mod Store
pub mod Sqlite
pub mod Sanitize
pub mod Notify
pub mod Cmd
pub mod Llm
pub mod Pipeline
pub mod Run
use emailer.Prelude.{ℕ, ◌+◌, ◌^◌, Bool, true, false, List, [], ◌∷◌, Option, none, some}
use emailer.Prelude.Bytes.{Bytes, codes}
use emailer.Prelude.Dict.{Dict}
use emailer.Prelude.Int.{ℤ, pos}
use emailer.Config.{Config, ImapAccount}
use emailer.Errors.{Error, Result, ok, err, external}
use emailer.Mail.Types.{Message, FetchOptions, Ingester}
use emailer.Llm.{InputMessage, Request, Response}
use emailer.Llm.Parse.{ClassificationItem, ClassificationsWrapper}
use emailer.Orchestrator.World as World'
use emailer.Orchestrator.World.{RunOptions, World}
use emailer.Store.Noop.{NoopStore, new_noop_store, noop_ops}

abbrev pub account : Bytes → ImapAccount
account label = record {
  label = label;
  host = codes "imap.example.org";
  port = pos 993;
  username = label;
  password = [];
  folders = none;
  use_tls = true;
}

abbrev pub accounts : List ImapAccount
accounts = account (codes "home") ∷ account (codes "work") ∷ []

abbrev pub message : Bytes → ℕ → Message
message label uid = record {
  account_label = label;
  uid = uid;
  folder = codes "INBOX";
  subject = codes "Hello";
  from = codes "Ann <ann@Example.org>";
  to = codes "me@example.org";
  date = pos 100;
  body = codes "How are you?";
  attachments = [];
  is_read = false;
}

-- The account "work" has two messages; "home" cannot be reached.
abbrev pub work_ingester : Ingester
work_ingester = record {
  fetch = λ acct opts. (message (codes "work") 1 ∷ message (codes "work") 2 ∷ [], none);
  apply_flags = λ acct flags. none;
}

abbrev pub home_ingester : Ingester
home_ingester = record {
  fetch = λ acct opts. ([], some (external (codes "connection refused")));
  apply_flags = λ acct flags. none;
}

abbrev pub ingesters : Dict Bytes Ingester
ingesters = (codes "work", work_ingester) ∷ (codes "home", home_ingester) ∷ []

abbrev pub item : Bytes → ℕ → ClassificationItem
item label uid = record {
  uid = uid;
  account = codes "work";
  label = label;
  confidence = record { negative = false; significand = 1; up = 0; down = 1 };
  reason = codes "a greeting";
  summary = codes "Ann says hello";
  key_points = codes "hello" ∷ [];
  action_items = [];
  priority = codes "low";
  urgency = [];
}

-- A response with one good item, and one with a further item whose label is not known.
abbrev pub one_item : ClassificationsWrapper
one_item = record { schema_version = pos 1; classifications = item (codes "Urgent") 1 ∷ [] }

abbrev pub two_items : ClassificationsWrapper
two_items = record {
  schema_version = pos 1;
  classifications = item (codes "Urgent") 1 ∷ item (codes "Junk") 2 ∷ [];
}

abbrev pub config : Config
config = record {
  fetch_unread_only = true;
  max_window = pos 0;
  llm = record {
    provider = codes "ollama";
    api_key = [];
    model = codes "llama3";
    endpoint = [];
    timeout = pos 0;
    max_retries = pos 1;
    max_concurrent = pos 1;
    analysis_repair_max_attempts = pos 1;
  };
  imap = record { accounts = accounts; timeout = pos 0 };
  notify = record { telegram = record { bot_token = []; chat_id = pos 1 } };
  storage = record { state_path = []; stateless = false };
  digest = record {
    max_message_excerpt = pos 200;
    include_read_status = true;
    include_global_stats = true;
    include_account_stats = true;
    include_summaries = true;
    include_key_points = true;
    include_action_items = true;
    include_raw_excerpt_fallback = true;
    max_messages = pos 50;
    max_key_points_per_message = pos 5;
    max_action_items_per_message = pos 5;
    priority_only = false;
  };
  labels = record { custom = codes "Urgent" ∷ [] };
  prompts = record { classification_prompt = []; system_prompt = [] };
  concurrency = record { max_accounts = pos 2; max_llm_calls = pos 1; fetch_batch_size = pos 10 };
}

abbrev pub response : Response
response = record {
  classifications = [];
  token_usage = record { prompt_tokens = pos 0; completion_tokens = pos 0; total_tokens = pos 0 };
  raw_response = codes "{}";
  schema_version = pos 1;
}

abbrev pub sample_pipeline : World'.Pipeline NoopStore
sample_pipeline = record {
  store = noop_ops;
  ingesters = ingesters;
  classify = λ n request. (response, none);
  render = λ data'. ok (codes "digest");
  render_fallback = λ data'. ok (codes "fallback");
  channel_name = codes "telegram";
  send = λ digest. none;
  config = config;
  clock = λ n. pos (10 ^ 18 + n);
  schedule = 1 ∷ 0 ∷ [];
  cancelled = λ i. false;
  hash = λ payload. payload;
  error_text = λ e. codes "error";
  lower_tables = λ s. s;
  unmarshal = λ s. ok two_items;
}

abbrev pub start : World NoopStore
start = record { store = new_noop_store; reads = 0; calls = 0; trace = [] }

abbrev pub options : RunOptions
options = record { window = none; force_reprocess = false; dry_run = true; stateless = false }

abbrev pub input : ℕ → InputMessage
input uid = record {
  key = record { account_label = codes "work"; uid = uid };
  subject = codes "Hello";
  from = codes "ann@example.org";
  date = pos 100;
  body = codes "How are you?";
  is_read = false;
}

abbrev pub request : Request
request = record {
  model = codes "llama3";
  system_prompt = [];
  classification_prompt = [];
  labels = [];
  messages = input 1 ∷ input 2 ∷ [];
}
