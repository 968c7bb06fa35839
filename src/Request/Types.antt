-- ===== src/Request/Types.antt =====
-- The request (Request.h).
use cndl.Base.{ℕ, List, Bytes}
use cndl.Request.Fields.{FieldMap}

pub record BodyArg : Type 0 where
  pub fields : FieldMap
  pub content : Bytes

pub record Header : Type 0 where
  pub method : Bytes
  pub resource : Bytes
  pub url : Bytes
  pub version : Bytes
  pub cookies : List (Bytes × Bytes)
  pub fields : FieldMap
  pub url_args : FieldMap
  pub body_args : List (Bytes × BodyArg)
  pub content_length : ℕ

pub record Request : Type 0 where
  pub header : Header
  pub message_body : Bytes
