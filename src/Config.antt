-- ===== src/Config.antt =====
-- internal/config/config.go: what the configuration file holds.
pub mod Load
use ragkb.Base.{ℤ, Bool, List}
use ragkb.Text.{Text}

pub record HttpConfig : Type 0 where
  pub addr : Text

pub record MySqlConfig : Type 0 where
  pub dsn : Text

pub record RedisConfig : Type 0 where
  pub addr : Text
  pub password : Text
  pub db : ℤ

pub record EsConfig : Type 0 where
  pub url : Text
  pub index_name : Text

pub record QdrantConfig : Type 0 where
  pub host : Text
  pub port : ℤ
  pub collection : Text

pub record MinIoConfig : Type 0 where
  pub endpoint : Text
  pub access_key : Text
  pub secret_key : Text
  pub bucket : Text
  pub use_ssl : Bool

pub record KafkaConfig : Type 0 where
  pub brokers : List Text
  pub topic : Text
  pub dlq_topic : Text
  pub group_id : Text

pub record TikaConfig : Type 0 where
  pub url : Text

pub record AiConfig : Type 0 where
  pub llm_base_url : Text
  pub llm_model : Text
  pub llm_api_key : Text
  pub embedding_base_url : Text
  pub embedding_model : Text
  pub embedding_api_key : Text
  pub embedding_dimensions : ℤ
  pub embedding_batch_size : ℤ
  pub embedding_concurrency : ℤ
  pub rerank_base_url : Text
  pub rerank_model : Text
  pub rerank_api_key : Text

pub record JwtConfig : Type 0 where
  pub secret : Text
  pub expire_hours : ℤ
  pub refresh_expire_hours : ℤ

pub record UploadConfig : Type 0 where
  pub max_file_size_mb : ℤ
  pub allowed_exts : List Text

pub record SearchConfig : Type 0 where
  pub top_k : ℤ
  pub recall_k : ℤ
  pub rrf_k : ℤ
  pub rerank_timeout_ms : ℤ

pub record LogConfig : Type 0 where
  pub level : Text
  pub mode : Text

pub record Config : Type 0 where
  pub http : HttpConfig
  pub mysql : MySqlConfig
  pub redis : RedisConfig
  pub es : EsConfig
  pub qdrant : QdrantConfig
  pub minio : MinIoConfig
  pub kafka : KafkaConfig
  pub tika : TikaConfig
  pub ai : AiConfig
  pub jwt : JwtConfig
  pub upload : UploadConfig
  pub search : SearchConfig
  pub log : LogConfig
