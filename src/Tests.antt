-- ===== src/Tests.antt =====
-- The models run on concrete inputs, and the theorems at inputs that meet their hypotheses.
mod Database
mod Decimal
mod Dict
mod DynamicBuffer
mod IntSet
mod ListPack
mod ReplyBuffer
mod RequestParser
mod RespParser
